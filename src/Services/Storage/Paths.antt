-- ===== src/Services/Storage/Paths.antt =====
-- The paths that services/storage_service.py joins and splits.
use Prim.Native.Char.{code}
use aura_aioscpu.Prelude.{
  nat_beq, Bool-cases, if_ind, string_eq, nat_eq, String, ◌≡◌, refl, ap, inl, inr, false, arith,
}
use aura_aioscpu.Prelude.Text.{is_empty, concat, lstrip, first_part, contains_char}
use aura_aioscpu.Services.Storage.{is_slash, ends_with_slash, is_absolute, join}

abbrev tail : String → String
tail String.[] = String.[]
tail (String.◌∷◌ c s) = s

pub concat_cancel : (a b c : String) → concat a b ≡ concat a c → b ≡ c
concat_cancel String.[] b c e = e
concat_cancel (String.◌∷◌ x a) b c e = concat_cancel a b c (ap tail e)

pub concat_assoc : (a b c : String) → concat (concat a b) c ≡ concat a (concat b c)
concat_assoc String.[] b c = refl
concat_assoc (String.◌∷◌ x a) b c = ap (String.◌∷◌ x) (concat_assoc a b c)

-- The part before the first separator, of a text that begins with a name and a separator.
pub first_part-concat :
    (name rest : String)
    → contains_char b'/' name ≡ false
    → first_part b'/' (concat name (concat "/" rest)) ≡ name
unfolding first_part contains_char
first_part-concat String.[] rest h = refl
first_part-concat (String.◌∷◌ c name) rest h = elim (Bool-cases (nat_beq (code c) b'/')) [
  | inl slash ↦ ground (arith, slash, h)
  | inr other ↦ rw (other) (ap (String.◌∷◌ c) (first_part-concat name rest (rw (other) at h)))
]

pub lstrip_relative : (s : String) → is_absolute s ≡ false → lstrip is_slash s ≡ s
unfolding lstrip
lstrip_relative String.[] h = refl
lstrip_relative (String.◌∷◌ c s) h = rw (h) refl

pub is_absolute-lstrip : (s : String) → is_absolute (lstrip is_slash s) ≡ false
unfolding lstrip
is_absolute-lstrip String.[] = refl
is_absolute-lstrip (String.◌∷◌ c s) =
    if_ind (λ z. is_absolute z ≡ false) (is_slash (code c)) (λ _. is_absolute-lstrip s)
      (λ other. other)

pub is_empty-concat : (a b : String) → is_empty a ≡ false → is_empty (concat a b) ≡ false
is_empty-concat String.[] b h = cc
is_empty-concat (String.◌∷◌ c a) b h = refl

is_empty-concat_right : (a b : String) → is_empty b ≡ false → is_empty (concat a b) ≡ false
is_empty-concat_right String.[] b h = h
is_empty-concat_right (String.◌∷◌ c a) b h = refl

pub ends_with_slash-concat :
    (a b : String) → is_empty b ≡ false → ends_with_slash (concat a b) ≡ ends_with_slash b
unfolding ends_with_slash
ends_with_slash-concat String.[] b h = refl
ends_with_slash-concat (String.◌∷◌ c a) b h =
    rw (is_empty-concat_right a b h) (ends_with_slash-concat a b h)

-- A root that `os.path.abspath` gives, other than that of the host.
pub record IsRoot (root : String) : Type 0 where
  pub proper : is_empty root ≡ false
  pub no_slash : ends_with_slash root ≡ false

pub join_below :
    (a b : String)
    → is_empty a ≡ false
    → ends_with_slash a ≡ false
    → is_absolute b ≡ false
    → join a b ≡ concat a (concat "/" b)
unfolding join
join_below a b proper no_slash relative = rw (relative, proper, no_slash) refl
