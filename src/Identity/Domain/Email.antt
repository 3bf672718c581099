-- ===== src/Identity/Domain/Email.antt =====
-- Normalised email addresses.
use Prim.Native.Char.{Char, code}
use b46_ordering_app_backend.Base.{
  ◌≡◌, sym, ◌∙◌, ap, inl, inr, String, not, Result, ok, err, arith, Bool-cases, trim_space,
  rune_count, ltb, is_space, map_runes, if◌then◌else◌, ok-injective,
}
use b46_ordering_app_backend.Base.Text.Trim.{trim_space-map_runes, map_runes-twice}
use b46_ordering_app_backend.Identity.Domain.{
  IdentityError, invalid_input, normalize_email, split_at, is_address, to_lower,
}

abbrev accepts : String → Result IdentityError String
accepts n =
    if not (is_address (split_at 0x40 n))
    then err invalid_input
    else if ltb 254 (rune_count n)
    then err invalid_input
    else ok n

accepts-same : (n m : String) → accepts n ≡ ok m → n ≡ m
accepts-same n m h = elim (Bool-cases (not (is_address (split_at 0x40 n)))) [
  | inl e ↦ absurd (ground (arith, e, h))
  | inr e ↦ elim (Bool-cases (ltb 254 (rune_count n))) [
    | inl l ↦ absurd (ground (arith, e, l, h))
    | inr l ↦ ok-injective (rw (e, l) at h)
  ]
]

-- A normalised address is its own normal form: what normalize_email answers with is accepted again
-- and answered unchanged. Lower-casing keeps spaces apart from other characters, and does nothing
-- to a character that it has lowered.
pub normalize_email-again :
    (lower : Char → Char) (value normalized : String)
    → ((c : Char) → lower (lower c) ≡ lower c)
    → ((c : Char) → is_space (code (lower c)) ≡ is_space (code c))
    → normalize_email lower value ≡ ok normalized
    → normalize_email lower normalized ≡ ok normalized
unfolding normalize_email
normalize_email-again lower value normalized once spaces h =
    let n = to_lower lower (trim_space value) in
    let same = accepts-same n normalized h in
    let fixed : to_lower lower (trim_space normalized) ≡ normalized =
      ap (λ t. to_lower lower (trim_space t)) (sym same)
      ∙ ap (map_runes lower) (trim_space-map_runes lower spaces value)
      ∙ map_runes-twice lower once (trim_space value)
      ∙ same in
    ap accepts fixed ∙ ap accepts (sym same) ∙ h
