-- ===== src/Services/Registry/Lifecycle.antt =====
-- The states of the services in services/registry.py, for every sequence of calls.
use aura_aioscpu.Services.Registry.Order.{compute_load_order}
use aura_aioscpu.Prelude.{
  Option-cases, if_ind, string_eq, nat_eq, lookup, AllValues, AllValues-insert, Outcome-cases,
  >>=-Returns, Returns_some, String, ◌≡◌, refl, inl, inr, Bool, true, not, Option, none, some, List,
  [], ◌∷◌,
}
use aura_aioscpu.Prelude.Text.{is_empty, ends_with}
use aura_aioscpu.Services.Registry.Descriptors.{
  stopped, running, failed, ServiceDescriptor, RegistryEvent, ServiceRegistry, ServiceFile, Numbers,
}
use aura_aioscpu.Services.Registry.Parser.{
  parse_service_file, Scan, parse, scan_file, scan, discover,
}
use aura_aioscpu.Services.Registry.{
  Host, launch_module, publish_event, set_descriptor, mark_running, mark_failed, start_service,
  start, halt_service, stop, restart, autostart_one, autostart, start_all_autostart,
}

-- A service between two calls: it is stopped without an instance, or running, with an instance where
-- it has a module, or it has failed.
pub data IsSettled {I F : Type 0} (desc : ServiceDescriptor I F) : Type 0 where
  at_rest : desc.state ≡ stopped → desc.instance_of ≡ none → IsSettled desc
  at_work : (i : I) → desc.state ≡ running → desc.instance_of ≡ some i → IsSettled desc
  built_in : desc.state ≡ running → is_empty desc.module_path ≡ true → IsSettled desc
  broken : desc.state ≡ failed → IsSettled desc

-- The calls that change a registry; a scan is given the file names that it finds.
pub data Call : Type 0 where
  discover_call : Option (List String) → Call
  start_call stop_call restart_call : String → Call
  autostart_call : Call

module _ {I F : Type 0} (host : Host I) (numbers : Numbers F)
    (read : String → Option ServiceFile) where
  unfoldable pub apply : Call → ServiceRegistry I F → ServiceRegistry I F
  apply (discover_call fnames) r = (discover numbers read fnames r).1
  apply (start_call name) r = (start host name r).1
  apply (stop_call name) r = (stop host name r).1
  apply (restart_call name) r = (restart host name r).1
  apply autostart_call r = (start_all_autostart host r).1

  unfoldable pub run : List Call → ServiceRegistry I F → ServiceRegistry I F
  run [] r = r
  run (c ∷ cs) r = run cs (apply c r)

  abbrev pub AllSettled : ServiceRegistry I F → Type 0
  AllSettled r = AllValues IsSettled r.registry

  publish-IsSettled :
      (e : RegistryEvent) (r : ServiceRegistry I F) → AllSettled r → AllSettled (publish_event e r)
  unfolding publish_event
  publish-IsSettled e r h = if_ind AllSettled r.has_bus (λ _. h) (λ _. h)

  set-IsSettled :
      (name : String) (desc : ServiceDescriptor I F) (r : ServiceRegistry I F)
      → IsSettled desc
      → AllSettled r
      → AllSettled (set_descriptor name desc r)
  unfolding set_descriptor
  set-IsSettled name desc r d h = AllValues-insert name desc r.registry d h

  start_service-IsSettled :
      (name : String) (desc : ServiceDescriptor I F) (r : ServiceRegistry I F)
      → AllSettled r
      → AllSettled (start_service host name desc r).1
  unfolding start_service
  start_service-IsSettled name desc r h =
      if_ind (λ (z : Bool × ServiceRegistry I F). AllSettled z.1) (is_empty desc.module_path)
        (λ e. set-IsSettled name _ r (built_in refl e) h)
        (λ _. elim (Option-cases (launch_module host desc.module_path)) [
          | inl fails ↦
              rw (fails)
                (publish-IsSettled _ _ (set-IsSettled name (mark_failed desc) r (broken refl) h))
          | inr (i, starts) ↦ rw (starts) (
              publish-IsSettled _ _ (
                set-IsSettled name (mark_running (some i) (host.clock name) desc) r
                  (at_work i refl refl) h))
        ])

  start-IsSettled :
      (name : String) (r : ServiceRegistry I F) → AllSettled r → AllSettled (start host name r).1
  unfolding start
  start-IsSettled name r h = elim (Option-cases (lookup name r.registry)) [
    | inl absent ↦ rw (absent, start) h
    | inr (desc, found) ↦ rw (found, start) (start_service-IsSettled name desc r h)
  ]

  -- A `stop` that raises leaves a settled service settled.
  replaced :
      (j : I) (desc : ServiceDescriptor I F) (i : I)
      → desc.instance_of ≡ some i
      → IsSettled desc
      → IsSettled (record desc { instance_of = some j })
  replaced j desc i e (at_rest s none_left) = cc
  replaced j desc i e (at_work k s m) = at_work j s refl
  replaced j desc i e (built_in s m) = built_in s m
  replaced j desc i e (broken s) = broken s

  halt_service-IsSettled :
      (name : String) (desc : ServiceDescriptor I F) (i : I) (r : ServiceRegistry I F)
      → desc.instance_of ≡ some i
      → IsSettled desc
      → AllSettled r
      → AllSettled (halt_service host name desc i r).1
  unfolding halt_service
  halt_service-IsSettled name desc i r e d h = elim (Outcome-cases (host.halt i)) [
    | inl (u, halts) ↦
        rw (halts, halt_service)
          (publish-IsSettled _ _ (
            set-IsSettled name (record desc { state = stopped; instance_of = none }) r
              (at_rest refl refl) h))
    | inr (j, raises) ↦
        rw (raises, halt_service)
          (set-IsSettled name (record desc { instance_of = some j }) r (replaced j desc i e d) h)
  ]

  stop-IsSettled :
      (name : String) (r : ServiceRegistry I F) → AllSettled r → AllSettled (stop host name r).1
  unfolding stop
  stop-IsSettled name r h = elim (Option-cases (lookup name r.registry)) [
    | inl absent ↦ simp (absent, stop) h
    | inr (desc, found) ↦ elim (Option-cases desc.instance_of) [
      | inl empty ↦ simp (found, empty, stop) h
      | inr (i, has_one) ↦
          simp (found, has_one, stop)
            (halt_service-IsSettled name desc i r has_one (h.at name desc found) h)
    ]
  ]

  autostart_one-IsSettled :
      (name : String) (s : List String × ServiceRegistry I F)
      → AllSettled s.1
      → AllSettled (autostart_one host name s).1
  unfolding autostart_one
  autostart_one-IsSettled name s h = elim (Option-cases (lookup name s.1.registry)) [
    | inl absent ↦ rw (absent, autostart_one) h
    | inr (desc, found) ↦
        rw (found, autostart_one)
          (if_ind (λ (z : List String × ServiceRegistry I F). AllSettled z.1) desc.auto_start
            (λ _. start_service-IsSettled name desc s.1 h) (λ _. h))
  ]

  autostart-IsSettled :
      (names : List String) (s : List String × ServiceRegistry I F)
      → AllSettled s.1
      → AllSettled (autostart host names s).1
  unfolding autostart
  autostart-IsSettled [] s h = h
  autostart-IsSettled (n ∷ ns) s h =
      autostart-IsSettled ns (autostart_one host n s) (autostart_one-IsSettled n s h)

  -- A parsed service is stopped and has no instance.
  parse-IsSettled :
      (fname : String) (desc : ServiceDescriptor I F)
      → parse numbers read fname ≡ some desc
      → IsSettled desc
  unfolding parse parse_service_file
  parse-IsSettled fname desc parsed =
      Returns_some IsSettled (parse numbers read fname) desc parsed (
        >>=-Returns IsSettled (read fname) _ (λ file.
          >>=-Returns IsSettled (numbers.read_float _) _ (λ delay.
            >>=-Returns IsSettled (numbers.read_float _) _ (λ interval.
              >>=-Returns IsSettled (numbers.read_int _) _ (λ failures. at_rest refl refl)))))

  scan_file-IsSettled :
      (fname : String) (s : Scan I F)
      → AllValues IsSettled s.found
      → AllValues IsSettled (scan_file numbers read fname s).found
  unfolding scan_file
  scan_file-IsSettled fname s h =
      if_ind (λ (z : Scan I F). AllValues IsSettled z.found) (not (ends_with ".service" fname))
        (λ _. h)
        (λ _. elim (Option-cases (parse {I = I} numbers read fname)) [
          | inl fails ↦ rw (fails) h
          | inr (desc, parsed) ↦
              rw (parsed)
                (AllValues-insert desc.name desc s.found (parse-IsSettled fname desc parsed) h)
        ])

  scan-IsSettled :
      (fnames : List String) (s : Scan I F)
      → AllValues IsSettled s.found
      → AllValues IsSettled (scan numbers read fnames s).found
  unfolding scan
  scan-IsSettled [] s h = h
  scan-IsSettled (f ∷ fs) s h =
      scan-IsSettled fs (scan_file numbers read f s) (scan_file-IsSettled f s h)

  discover-IsSettled :
      (fnames : Option (List String)) (r : ServiceRegistry I F)
      → AllSettled r
      → AllSettled (discover numbers read fnames r).1
  unfolding discover compute_load_order
  discover-IsSettled none r h = h
  discover-IsSettled (some fnames) r h =
      scan-IsSettled fnames (record { found = r.registry; count = 0 }) h

  apply-IsSettled : (c : Call) (r : ServiceRegistry I F) → AllSettled r → AllSettled (apply c r)
  unfolding apply restart start_all_autostart
  apply-IsSettled (discover_call fnames) r h = discover-IsSettled fnames r h
  apply-IsSettled (start_call name) r h = start-IsSettled name r h
  apply-IsSettled (stop_call name) r h = stop-IsSettled name r h
  apply-IsSettled (restart_call name) r h = start-IsSettled name _ (stop-IsSettled name r h)
  apply-IsSettled autostart_call r h = autostart-IsSettled r.load_order ([], r) h

  -- Of a registry of which it holds at first, after any calls, and whatever the services' classes do: a
  -- service that is stopped has no instance, one that is running has an instance or no module, and the
  -- only other state is failed.
  pub run-IsSettled :
      (calls : List Call) (r : ServiceRegistry I F)
      → AllValues IsSettled r.registry
      → AllValues IsSettled (run calls r).registry
  unfolding run
  run-IsSettled [] r h = h
  run-IsSettled (c ∷ cs) r h = run-IsSettled cs (apply c r) (apply-IsSettled c r h)
