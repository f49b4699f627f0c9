-- ===== src/Kernel/Config/Merge.antt =====
-- `_deep_merge` of kernel/config.py: what a path of keys holds after the merge.
use mathlib.Core.Path.{subst}
use aura_aioscpu.Prelude.{
  if◌then◌else◌, Bool-cases, Option-cases, string_eq, nat_eq, ◌==◌, ==_iff, String, ◌≡◌, refl, sym,
  ap, ◌∙◌, inl, inr, Bool, true, false, Option, none, some, List, [], ◌∷◌, arith,
}
use aura_aioscpu.Kernel.Config.{
  Value, leaf, object, Members, end, member, find, put, deep_merge, merged,
}

unfoldable mutual
  -- No key stands twice in an object, at any depth.
  pub IsDict : {L : Type 0} → Members L → Type 0
  IsDict end = Unit
  IsDict (member k v d) = (find k d ≡ none) × IsJson v × IsDict d

  pub IsJson : {L : Type 0} → Value L → Type 0
  IsJson (leaf l) = Unit
  IsJson (object d) = IsDict d

module _ {L : Type 0} where
  -- What a path of keys leads to.
  unfoldable pub walk : List String → Option (Value L) → Option (Value L)
  walk [] o = o
  walk (k ∷ ks) none = none
  walk (k ∷ ks) (some (leaf l)) = none
  walk (k ∷ ks) (some (object d)) = walk ks (find k d)

  -- Nothing that is written at the path, above it or below it.
  unfoldable pub untouched : List String → Option (Value L) → Bool
  untouched ks none = true
  untouched [] (some v) = false
  untouched (k ∷ ks) (some (leaf l)) = false
  untouched (k ∷ ks) (some (object d)) = untouched ks (find k d)

  pub find-put :
      (k j : String) (v : Value L) (d : Members L)
      → find k (put j v d) ≡ (if j == k then some v else find k d)
  unfolding find put
  find-put k j v end = refl
  find-put k j v (member i w d) =
      ground (arith, ==_iff i j, ==_iff i k, ==_iff j k, find-put k j v d)

  -- What a key holds after the merge of a value that the override may have.
  abbrev over : Option (Value L) → Option (Value L) → Option (Value L)
  over old none = old
  over old (some v) = some (merged old v)

  find-deep_merge :
      (k : String) (base d : Members L)
      → IsDict d
      → find k (deep_merge base d) ≡ over (find k base) (find k d)
  unfolding find deep_merge IsDict
  find-deep_merge k base end h = refl
  find-deep_merge k base (member j v d) (new, json, h) =
      let base' = put j (merged (find j base) v) base in
      let later = find-deep_merge k base' d h in
      let here = find-put k j (merged (find j base) v) base in
      elim (Bool-cases (j == k)) [
        | inl same ↦
            let e : j ≡ k = (==_iff j k).0 same in
            let gone : find k d ≡ none = subst (λ i. find i d ≡ none) e new in
            later
            ∙ ap (over (find k base')) gone
            ∙ here
            ∙ rw (same) (ap (λ i. some (merged (find i base) v)) e)
        | inr other ↦
            let same : find k base' ≡ find k base = here ∙ rw (other) refl in
            later ∙ ap (λ o. over o (find k d)) same ∙ rw (other) refl
      ]

  find-IsJson : (k : String) (d : Members L) (v : Value L) → IsDict d → find k d ≡ some v → IsJson v
  unfolding find IsDict IsJson
  find-IsJson k end v h found = cc
  find-IsJson k (member j w d) v h found = elim (Bool-cases (j == k)) [
    | inl same ↦
        let e : some w ≡ some v = rw (same) at found in
        subst IsJson (ap (λ o. elim o [ none ↦ w | some x ↦ x ]) e) h.1
    | inr other ↦ find-IsJson k d v h.2 (rw (other) at found)
  ]

  walk-none : (ks : List String) → walk ks none ≡ none
  unfolding walk
  walk-none [] = refl
  walk-none (k ∷ ks) = refl

  absurd_walk : (ks : List String) (l : L) {P : Type 0} → walk ks none ≡ some (leaf l) → P
  absurd_walk ks l h = let e : none ≡ some (leaf l) = sym (walk-none ks) ∙ h in cc

  -- A value that the override leads to is what the merge leads to.
  merged_wins :
      (ks : List String) (old : Option (Value L)) (v : Value L) (l : L)
      → IsJson v
      → walk ks (some v) ≡ some (leaf l)
      → walk ks (some (merged old v)) ≡ some (leaf l)
  unfolding walk merged IsJson
  merged_wins [] old (leaf x) l json h = h
  merged_wins [] old (object d) l json h = cc
  merged_wins (k ∷ ks) old (leaf x) l json h = cc
  merged_wins (k ∷ ks) none (object d) l json h = h
  merged_wins (k ∷ ks) (some (leaf x)) (object d) l json h = h
  merged_wins (k ∷ ks) (some (object b)) (object d) l json h =
      ap (walk ks) (find-deep_merge k b d json) ∙ elim (Option-cases (find k d)) [
        | inl absent ↦
            let e : walk ks none ≡ some (leaf l) = ap (walk ks) (sym absent) ∙ h in
            absurd_walk ks l e
        | inr (w, found) ↦
            ap (λ o. walk ks (over (find k b) o)) found
            ∙ merged_wins ks (find k b) w l (find-IsJson k d w json found)
                (ap (walk ks) (sym found) ∙ h)
      ]

  -- A value of the base stays where the override writes nothing at, above or below its path.
  merged_keeps :
      (ks : List String) (old : Option (Value L)) (v : Value L) (l : L)
      → IsJson v
      → untouched ks (some v) ≡ true
      → walk ks old ≡ some (leaf l)
      → walk ks (some (merged old v)) ≡ some (leaf l)
  unfolding walk merged IsJson untouched
  merged_keeps [] old v l json quiet h = cc
  merged_keeps (k ∷ ks) old (leaf x) l json quiet h = cc
  merged_keeps (k ∷ ks) none (object d) l json quiet h = cc
  merged_keeps (k ∷ ks) (some (leaf x)) (object d) l json quiet h = cc
  merged_keeps (k ∷ ks) (some (object b)) (object d) l json quiet h =
      ap (walk ks) (find-deep_merge k b d json) ∙ elim (Option-cases (find k d)) [
        | inl absent ↦ ap (λ o. walk ks (over (find k b) o)) absent ∙ h
        | inr (w, found) ↦
            ap (λ o. walk ks (over (find k b) o)) found
            ∙ merged_keeps ks (find k b) w l (find-IsJson k d w json found)
                (ap (untouched ks) (sym found) ∙ quiet) h
      ]

  -- A setting that the second file has at a path wins over the base, whatever the base has there.
  pub deep_merge_wins :
      (base override : Members L) (ks : List String) (l : L)
      → IsDict override
      → walk ks (some (object override)) ≡ some (leaf l)
      → walk ks (some (object (deep_merge base override))) ≡ some (leaf l)
  unfolding merged IsJson
  deep_merge_wins base override ks l dict h =
      merged_wins ks (some (object base)) (object override) l dict h

  -- A setting of the base stays where the second file has nothing at, above or below its path.
  deep_merge_keeps :
      (base override : Members L) (ks : List String) (l : L)
      → IsDict override
      → untouched ks (some (object override)) ≡ true
      → walk ks (some (object base)) ≡ some (leaf l)
      → walk ks (some (object (deep_merge base override))) ≡ some (leaf l)
  unfolding merged IsJson
  deep_merge_keeps base override ks l dict quiet h =
      merged_keeps ks (some (object base)) (object override) l dict quiet h
