-- ===== src/Base/Text/Trim.antt =====
-- Trimming a text twice, and trimming a text whose characters were replaced.
use Prim.Native.Char.{Char, code}
use Prim.Native.String.{String}
use mathlib.Core.Path.{◌≡◌, refl, ap, ◌∙◌}
use mathlib.Core.Logic.{inl, inr}
use mathlib.Core.Bool.{false, ◌&&◌}
use b46_ordering_app_backend.Base.Tests.{Bool-cases}
use b46_ordering_app_backend.Base.Text.{
  is_space, trim_left, trim_right, trim_space, is_empty, map_runes,
}

-- The text does not begin with a space.
abbrev Begins : String → Type 0
Begins String.[] = Unit
Begins (String.◌∷◌ c s) = is_space (code c) ≡ false

Begins-trim_left : (s : String) → Begins (trim_left s)
unfolding trim_left
Begins-trim_left String.[] = tt
Begins-trim_left (String.◌∷◌ c s) = elim (Bool-cases (is_space (code c))) [
  | inl e ↦ rw e (Begins-trim_left s)
  | inr e ↦ rw e e
]

trim_left-Begins : (s : String) → Begins s → trim_left s ≡ s
unfolding trim_left
trim_left-Begins String.[] h = refl
trim_left-Begins (String.◌∷◌ c s) h = rw h

Begins-trim_right : (s : String) → Begins s → Begins (trim_right s)
unfolding trim_right
Begins-trim_right String.[] h = tt
Begins-trim_right (String.◌∷◌ c s) h = elim (Bool-cases (is_empty (trim_right s))) [
  | inl e ↦ rw (e, h) h
  | inr e ↦ rw e h
]

trim_right-twice : (s : String) → trim_right (trim_right s) ≡ trim_right s
unfolding trim_right
trim_right-twice String.[] = refl
trim_right-twice (String.◌∷◌ c s) =
    elim (Bool-cases (is_empty (trim_right s) && is_space (code c))) [
      | inl e ↦ rw e
      | inr e ↦ rw (e, trim_right-twice s, e)
    ]

module _ (f : Char → Char) (same : (c : Char) → is_space (code (f c)) ≡ is_space (code c)) where
  Begins-map_runes : (s : String) → Begins s → Begins (map_runes f s)
  unfolding map_runes
  Begins-map_runes String.[] h = tt
  Begins-map_runes (String.◌∷◌ c s) h = same c ∙ h

  is_empty-map_runes : (s : String) → is_empty (map_runes f s) ≡ is_empty s
  unfolding map_runes
  is_empty-map_runes String.[] = refl
  is_empty-map_runes (String.◌∷◌ c s) = refl

  trim_right-map_runes : (s : String) → trim_right (map_runes f s) ≡ map_runes f (trim_right s)
  unfolding map_runes trim_right
  trim_right-map_runes String.[] = refl
  trim_right-map_runes (String.◌∷◌ c s) =
      elim (Bool-cases (is_empty (trim_right s) && is_space (code c))) [
        | inl e ↦ rw (trim_right-map_runes s, is_empty-map_runes (trim_right s), same c, e)
        | inr e ↦ rw (trim_right-map_runes s, is_empty-map_runes (trim_right s), same c, e)
      ]

  -- A trimmed text whose characters are replaced, spaces by spaces only, is trimmed.
  pub trim_space-map_runes :
      (s : String) → trim_space (map_runes f (trim_space s)) ≡ map_runes f (trim_space s)
  unfolding trim_space
  trim_space-map_runes s =
      let t = trim_right (trim_left s) in
      let begins = Begins-map_runes t (Begins-trim_right (trim_left s) (Begins-trim_left s)) in
      ap trim_right (trim_left-Begins (map_runes f t) begins)
      ∙ trim_right-map_runes t
      ∙ ap (map_runes f) (trim_right-twice (trim_left s))

pub map_runes-twice :
    (f : Char → Char)
    → ((c : Char) → f (f c) ≡ f c)
    → (s : String) → map_runes f (map_runes f s) ≡ map_runes f s
unfolding map_runes
map_runes-twice f once String.[] = refl
map_runes-twice f once (String.◌∷◌ c s) = rw (once c, map_runes-twice f once s)
