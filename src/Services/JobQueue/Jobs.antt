-- ===== src/Services/JobQueue/Jobs.antt =====
-- The data of services/job_queue.py: jobs, their order, the queue and what its methods read.
use aura_aioscpu.Prelude.{
  ltb, if◌then◌else◌, string_eq, nat_eq, ◌==◌, ℕ, String, ◌≡◌, Bool, true, false, not, Option, List,
  arith,
}
use aura_aioscpu.Prelude.Heapq.{LessThan}

pub data JobState : Type 0 where
  queued running retrying done failed cancelled : JobState

pub record Job (F : Type 0) : Type 0 where
  pub name : String
  pub fn : F
  pub priority : ℕ
  pub max_retries : ℕ
  pub job_id : String
  pub attempts : ℕ
  pub next_run_at : ℕ
  pub state : JobState
  pub error : String
  pub elapsed_ms : ℕ
  pub seq : ℕ

-- `Job.__lt__`
unfoldable pub less : {F : Type 0} → Job F → Job F → Bool
less a b =
    if not (a.next_run_at == b.next_run_at)
    then ltb a.next_run_at b.next_run_at
    else (if not (a.priority == b.priority) then ltb a.priority b.priority else ltb a.seq b.seq)

pub less_asymmetric : {F : Type 0} (a b : Job F) → less a b ≡ true → less b a ≡ false
unfolding less
less_asymmetric a b h = ground arith

pub less_negatively_transitive :
    {F : Type 0} (a b c : Job F) → less b a ≡ false → less c b ≡ false → less c a ≡ false
unfolding less
less_negatively_transitive a b c h k = ground arith

instance abbrev pub job_order : {F : Type 0} → LessThan (Job F)
job_order = record {
  less = less;
  asymmetric = less_asymmetric;
  negatively_transitive = less_negatively_transitive;
}

pub data JobEvent : Type 0 where
  job_queued : (name job_id : String) → (priority : ℕ) → JobEvent
  job_started : (name job_id : String) → JobEvent
  job_complete : (name job_id : String) → (elapsed_ms : ℕ) → JobEvent
  job_failed : (name job_id : String) → (attempt : ℕ) → (error : String) → JobEvent
  job_retrying : (name job_id : String) → (attempt retry_in_s : ℕ) → JobEvent

pub record JobQueue (F : Type 0) : Type 0 where
  pub queue : List (Job F)
  pub active : List (String × Job F)
  pub history : List (Job F)
  pub max_history : ℕ
  pub is_running : Bool
  pub seq : ℕ
  pub published : List JobEvent

-- The arguments of `submit`, the id that is drawn and the clock reading.
pub record Submission (F : Type 0) : Type 0 where
  pub name : String
  pub fn : F
  pub priority : ℕ
  pub max_retries : ℕ
  pub delay_ms : ℕ
  pub job_id : String
  pub now : ℕ

-- What a call of a job's callable does: the jobs that it submits, and what it raises.
pub record Call (F : Type 0) : Type 0 where
  pub submitted : List (Submission F)
  pub error : Option String

-- The clock readings of `_drain_one`: on entry, before the call, after it, and for the back-off.
pub record Readings : Type 0 where
  pub now : ℕ
  pub t0 : ℕ
  pub finished : ℕ
  pub retried : ℕ
