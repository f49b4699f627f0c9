-- ===== src/Kernel/Api/Tests.antt =====
-- Runs of kernel/api.py's gate.
use aura_aioscpu.Prelude.{string_eq, nat_eq, refl, [], ◌∷◌}
use aura_aioscpu.Kernel.Api.{KernelApi, start_service, handle}
use aura_aioscpu.Kernel.Api.Gate.{demands, administers, Passes, handle-Passes}

abbrev api : KernelApi
api = record {
  permissions = record { mode = "universal"; granted = []; revoked = "event.publish" ∷ [] };
  calls = [];
}

handle-Passes_example : Passes ("service.start" ∷ []) api (handle (start_service "net") api)
unfolding demands administers
handle-Passes_example = handle-Passes (start_service "net") api refl
