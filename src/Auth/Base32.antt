-- ===== src/Auth/Base32.antt =====
-- auth.rs: `base32_decode`. The 64-bit buffer keeps its wrap-around; a character is cut to its low
-- byte (`as u8`) before it is looked up. The low five bits of the shifted buffer are free, so `|` adds.
use jwt_service_app.Base.{
  ℕ, suc, ◌+◌, ◌-◌, ◌*◌, ◌/◌, ◌%◌, ◌^◌, ◌||◌, Option, none, some, List, [], ◌∷◌, ◌++◌, leb, ◌==◌,
  if◌then◌else◌,
}
use jwt_service_app.Base.Text.{Text, codes, is_whitespace, ascii_upper}

abbrev pub alphabet : Text
alphabet = codes "ABCDEFGHIJKLMNOPQRSTUVWXYZ234567"

-- `iter().position`
unfoldable pub position : ℕ → List ℕ → Option ℕ
position a [] = none
position a (x ∷ l) =
    let rest : Option ℕ = position a l in
    if x == a then some 0 else elim rest [ none ↦ none | some i ↦ some (suc i) ]

unfoldable pub base32_value : ℕ → Option ℕ
unfolding ascii_upper position
base32_value ch = position (ascii_upper ch % 2 ^ 8) alphabet

-- The loop over the characters. Eight bits are put out as soon as they are there.
unfoldable pub decode_loop : ℕ → ℕ → List ℕ → Text → Option (List ℕ)
unfolding base32_value is_whitespace
decode_loop buffer bits out [] = some out
decode_loop buffer bits out (ch ∷ rest) =
    let skip = decode_loop buffer bits out rest in
    if is_whitespace ch || ch == b'=' then skip else elim (base32_value ch) [
      | none ↦ none
      | some value ↦
          let buffer' = (buffer * 2 ^ 5) % 2 ^ 64 + value in
          let bits' = bits + 5 in
          let emit =
            decode_loop buffer' (bits' - 8) (out ++ ((buffer' / 2 ^ (bits' - 8)) % 2 ^ 8) ∷ [])
              rest in
          let keep = decode_loop buffer' bits' out rest in if leb 8 bits' then emit else keep
    ]

unfoldable pub base32_decode : Text → Option (List ℕ)
unfolding decode_loop
base32_decode input = decode_loop 0 0 [] input
