-- ===== src/Issuer/Laws.antt =====
-- issuer.rs: which hosts may issue.
use jwt_service_app.Base.{
  ◌≡◌, ◌↔◌, ◌⊎◌, refl, sym, ap, ◌∙◌, subst, Bool, true, false, Bool-cases, List, [], ◌∷◌, all, map,
  is_empty, arith, inl, inr,
}
use jwt_service_app.Base.Membership.{any-Memᴰ, Memᴰ-any}
use mathlib.Core.List.{Memᴰ}
use jwt_service_app.Base.Text.{
  Text, text_eq, text_eq_sound, text_eq_refl, to_ascii_lowercase, codes, trim, split,
}
use jwt_service_app.Env.{Env, unwrap_or}
use jwt_service_app.Issuer.{allowed_by, allowlist, is_allowed, keep_nonempty, parse}

abbrev pub entries : Env → List Text
entries env = split b',' (unwrap_or [] (env (codes "TOKEN_ISSUER_ALLOWLIST")))

abbrev pub is_blank : Text → Bool
is_blank entry = is_empty (trim entry)

abbrev pub cleaned : Text → Text
cleaned entry = to_ascii_lowercase (trim entry)

to_ascii_lowercase-is_empty : (s : Text) → is_empty (to_ascii_lowercase s) ≡ is_empty s
unfolding to_ascii_lowercase
to_ascii_lowercase-is_empty [] = refl
to_ascii_lowercase-is_empty (c ∷ s) = refl

abbrev listed : List Text → List Text
listed l = keep_nonempty (map cleaned l)

-- Only blank entries are left out.
listed-blank : (e : Text) (l : List Text) → is_blank e ≡ true → listed (e ∷ l) ≡ listed l
listed-blank e l blank = rw (to_ascii_lowercase-is_empty (trim e) ∙ blank) refl

listed-kept :
    (e : Text) (l : List Text) → is_blank e ≡ false → listed (e ∷ l) ≡ cleaned e ∷ listed l
listed-kept e l kept = rw (to_ascii_lowercase-is_empty (trim e) ∙ kept) refl

is_empty-listed : (l : List Text) → is_empty (listed l) ≡ all is_blank l
is_empty-listed [] = refl
is_empty-listed (e ∷ l) = elim (Bool-cases (is_blank e)) [
  | inl blank ↦ ap is_empty (listed-blank e l blank) ∙ (is_empty-listed l ∙ rw blank refl)
  | inr kept ↦ ap is_empty (listed-kept e l kept) ∙ rw kept refl
]

-- An entry that is not blank and reads as a text, but for case.
abbrev pub Lists : List Text → Text → Type 0
Lists l t = (e : Text) × Memᴰ e l × (is_blank e ≡ false) × (cleaned e ≡ t)

in_tail : (e : Text) (l : List Text) (t : Text) → Lists l t → Lists (e ∷ l) t
in_tail e l t (found, m, kept, reads) = (found, Memᴰ.tail m, kept, reads)

Memᴰ-Lists : (l : List Text) (t : Text) → Memᴰ t (listed l) → Lists l t
Memᴰ-Lists [] t m = elim m [ ]
Memᴰ-Lists (e ∷ l) t m = elim (Bool-cases (is_blank e)) [
  | inl blank ↦ in_tail e l t (Memᴰ-Lists l t (subst (Memᴰ t) (listed-blank e l blank) m))
  | inr kept ↦ elim (subst (Memᴰ t) (listed-kept e l kept) m) [
    | Memᴰ.head same ↦ (e, Memᴰ.head refl, kept, sym same)
    | Memᴰ.tail there ↦ in_tail e l t (Memᴰ-Lists l t there)
  ]
]

Lists-Memᴰ :
    (l : List Text) (e : Text) → Memᴰ e l → is_blank e ≡ false → Memᴰ (cleaned e) (listed l)
Lists-Memᴰ [] e m kept = elim m [ ]
Lists-Memᴰ (d ∷ l) e (Memᴰ.head same) kept =
    subst (Memᴰ (cleaned e)) (sym (listed-kept d l (ap is_blank (sym same) ∙ kept)))
      (Memᴰ.head (ap cleaned same))
Lists-Memᴰ (d ∷ l) e (Memᴰ.tail m) kept = elim (Bool-cases (is_blank d)) [
  | inl blank ↦ subst (Memᴰ (cleaned e)) (sym (listed-blank d l blank)) (Lists-Memᴰ l e m kept)
  | inr other ↦
      subst (Memᴰ (cleaned e)) (sym (listed-kept d l other)) (Memᴰ.tail (Lists-Memᴰ l e m kept))
]

-- A host may issue exactly if the allowlist is empty or holds it in lower case.
is_allowed-allowlist :
    (env : Env) (host : Text)
    → (is_allowed env host ≡ true)
      ↔ ((is_empty (allowlist env) ≡ true) ⊎ Memᴰ (to_ascii_lowercase host) (allowlist env))
unfolding is_allowed allowed_by
is_allowed-allowlist env host =
    let same : Text → Bool = λ a. text_eq a (to_ascii_lowercase host) in
    (
      λ h. elim (Bool-cases (is_empty (allowlist env))) [
        | inl open' ↦ inl open'
        | inr listed ↦
            let (a, m, e) = any-Memᴰ same (allowlist env) (ground (arith, h, listed)) in
            inr (subst (λ t. Memᴰ t (allowlist env)) (text_eq_sound a _ e) m)
      ],
      λ h. elim h [
        | inl open' ↦ ground (arith, open')
        | inr m ↦
            ground (arith, Memᴰ-any same (allowlist env) m (text_eq_refl (to_ascii_lowercase host)))
      ],
    )

-- A host may issue exactly if every entry of TOKEN_ISSUER_ALLOWLIST is blank, or the variable is not
-- set, or one of the entries, which commas separate, is the host but for white space around it and
-- the case of ASCII letters.
pub is_allowed_iff :
    (env : Env) (host : Text)
    → (is_allowed env host ≡ true)
      ↔ ((all is_blank (entries env) ≡ true) ⊎ Lists (entries env) (to_ascii_lowercase host))
unfolding allowlist parse
is_allowed_iff env host =
    let (to, from) = is_allowed-allowlist env host in
    let empty = is_empty-listed (entries env) in
    (
      λ h. elim (to h) [
        | inl open' ↦ inl (sym empty ∙ open')
        | inr m ↦ inr (Memᴰ-Lists (entries env) (to_ascii_lowercase host) m)
      ],
      λ h. elim h [
        | inl blank ↦ from (inl (empty ∙ blank))
        | inr (e, m, kept, reads) ↦ from (
            inr (
              subst (λ t. Memᴰ t (listed (entries env))) reads (Lists-Memᴰ (entries env) e m kept)))
      ],
    )
