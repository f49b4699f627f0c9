-- ===== src/Services/Logging/Queries.antt =====
-- `query` of services/logging_service.py against filtering and taking.
use mathlib.Core.List.{reverse, reverse-cons}
use aura_aioscpu.Prelude.Text.{is_empty, translate, upper_text}
use aura_aioscpu.Prelude.{
  leb, if◌then◌else◌, Bool-cases, string_eq, nat_eq, ◌==◌, ℕ, zero, suc, ◌+◌, ◌-◌, String, ◌≡◌,
  refl, sym, ap, ◌∙◌, inl, inr, Bool, true, false, ◌&&◌, Option, none, some, List, [], ◌∷◌, ◌++◌,
  arith,
}
use aura_aioscpu.Services.Logging.{
  LogEntry, LoggingService, Filter, accepts, is_since, upper_option, matches, query_loop, backwards,
  query,
}

module _ {ℓ} {A : Type ℓ} where
  unfoldable pub take : ℕ → List A → List A
  take zero xs = []
  take (suc n) [] = []
  take (suc n) (x ∷ xs) = x ∷ take n xs

  unfoldable pub filter : (A → Bool) → List A → List A
  filter p [] = []
  filter p (x ∷ xs) = if p x then x ∷ filter p xs else filter p xs

-- What a filter asks for: a text that is empty and a time of 0 ask for nothing, and a level is asked for
-- in capitals.
abbrev pub asks : Option String → (String → Bool) → Bool
asks none test = true
asks (some wanted) test = elim (is_empty wanted) [ true ↦ true | false ↦ test wanted ]

abbrev pub asks_time : Option ℕ → ℕ → Bool
asks_time none ts = true
asks_time (some zero) ts = true
asks_time (some (suc since)) ts = leb (suc since) ts

accepts_level :
    (o : Option String) (actual : String)
    → accepts (upper_option o) actual ≡ asks o (λ l. actual == upper_text l)
unfolding accepts upper_text translate
accepts_level none actual = refl
accepts_level (some String.[]) actual = refl
accepts_level (some (String.◌∷◌ c s)) actual = refl

accepts_lem : (o : Option String) (actual : String) → accepts o actual ≡ asks o (λ s. actual == s)
unfolding accepts
accepts_lem none actual = refl
accepts_lem (some String.[]) actual = refl
accepts_lem (some (String.◌∷◌ c s)) actual = refl

is_since_lem : (o : Option ℕ) (ts : ℕ) → is_since o ts ≡ asks_time o ts
unfolding is_since
is_since_lem none ts = refl
is_since_lem (some zero) ts = ground arith
is_since_lem (some (suc since)) ts = ground arith

module _ {D : Type 0} where
  query_loop_lem :
      (f : Filter) (limit count : ℕ) (es : List (LogEntry D))
      → query_loop f limit count es ≡ take (suc (limit - suc count)) (filter (matches f) es)
  unfolding query_loop take filter
  query_loop_lem f limit count [] = refl
  query_loop_lem f limit count (e ∷ es) = elim (Bool-cases (matches f e)) [
    | inr other ↦ rw (other, query_loop) (query_loop_lem f limit count es)
    | inl wanted ↦
        let rest = filter (matches f) es in
        elim (Bool-cases (leb limit (count + 1))) [
          | inl full ↦
              let none_left : 0 ≡ limit - suc count = ground (arith, full) in
              rw (wanted, query_loop, full) (ap (λ n. e ∷ take n rest) none_left)
          | inr room ↦
              let more : suc (limit - suc (count + 1)) ≡ limit - suc count = ground (arith, room) in
              rw (wanted, query_loop, room)
                (ap (λ l. e ∷ l)
                  (query_loop_lem f limit (count + 1) es ∙ ap (λ n. take n rest) more))
        ]
  ]

  unfoldable pub passes : Filter → LogEntry D → Bool
  passes f e =
      asks f.level (λ l. e.level == upper_text l)
      && asks f.source (λ s. e.source == s)
      && asks f.event_type (λ t. e.event == t)
      && asks_time f.since e.ts

  matches-passes : (f : Filter) (e : LogEntry D) → matches f e ≡ passes f e
  unfolding matches passes
  matches-passes f e =
      rw
        (
          accepts_level f.level e.level,
          accepts_lem f.source e.source,
          accepts_lem f.event_type e.event,
          is_since_lem f.since e.ts,
        )
        refl

  filter-passes :
      (f : Filter) (es : List (LogEntry D)) → filter (matches f) es ≡ filter (passes f) es
  unfolding filter
  filter-passes f [] = refl
  filter-passes f (e ∷ es) = rw (matches-passes f e, filter-passes f es) refl

  backwards-reverse : (es : List (LogEntry D)) → backwards es ≡ reverse es
  unfolding backwards
  backwards-reverse [] = refl
  backwards-reverse (e ∷ es) =
      ap (λ l. l ++ e ∷ []) (backwards-reverse es) ∙ sym (reverse-cons e es)

  -- A query gives, the newest first, the entries of the buffer that pass every filter, as many as the
  -- limit allows; a limit of 0 allows one. An entry passes where its level is the one asked for, in
  -- capitals, its source and its type are those asked for, and it is not older than the time; what is not
  -- given, an empty text and a time of 0 ask for nothing.
  pub query_lem :
      (f : Filter) (limit : ℕ) (s : LoggingService D)
      → query f limit s ≡ take (suc (limit - 1)) (filter (passes f) (reverse s.buffer))
  unfolding query
  query_lem f limit s =
      query_loop_lem f limit 0 (backwards s.buffer)
      ∙ ap (take (suc (limit - 1))) (
          filter-passes f (backwards s.buffer)
          ∙ ap (filter (passes f)) (backwards-reverse s.buffer))
