-- ===== src/Domain/Access/Under.antt =====
-- `Under` decides whether the segments of the prefix begin the segments of the id.
use ochakai.Common.{
  true, List, [], ◌∷◌, ◌++◌, ◌≡◌, ◌≢◌, refl, sym, ap, ◌∙◌, ◌↔◌, ◌⊎◌, inl, inr, arith, append_assoc,
  append-nil,
}
use ochakai.Text.{Bytes, has_prefix-append, has_prefix→append, bytes_discrete}
use ochakai.Text.Split.{split, split-append_sep, split_prefix, append_comparable}
use ochakai.Domain.Segments.{slash}
use ochakai.Domain.Access.{under}

-- The root, the address itself, or an address with the prefix and a slash before the rest.
abbrev pub Covers : Bytes → Bytes → Type 0
Covers id p = (p ≡ []) ⊎ (id ≡ p) ⊎ ((r : Bytes) × (id ≡ p ++ (slash ∷ r)))

pub under→Covers : (id p : Bytes) → under id p ≡ true → Covers id p
unfolding under
under→Covers id p h = elim (bytes_discrete p []) [
  | yes e ↦ inl e
  | no e ↦ elim (bytes_discrete id p) [
    | yes f ↦ inr (inl f)
    | no f ↦
        let (r, g) = has_prefix→append id (p ++ (slash ∷ [])) (ground arith) in
        inr (inr (r, g ∙ append_assoc p (slash ∷ []) r))
  ]
]

pub Covers→under : (id p : Bytes) → Covers id p → under id p ≡ true
unfolding under
Covers→under id p (inl e) = ground arith
Covers→under id p (inr (inl e)) = ground arith
Covers→under id p (inr (inr (r, e))) =
    ground (arith, has_prefix-append (p ++ (slash ∷ [])) r, append_assoc p (slash ∷ []) r)

-- The segments of `p` begin those of `id`.
abbrev pub BeginsWith : List Bytes → List Bytes → Type 0
BeginsWith l xs = (rest : List Bytes) × (l ≡ xs ++ rest)

-- Under a prefix that is not the root stand exactly the addresses whose segments begin with the
-- prefix's segments.
pub under-iff-segments :
    (id p : Bytes) → p ≢ [] → (under id p ≡ true) ↔ BeginsWith (split slash id) (split slash p)
under-iff-segments id p ne = (
  (λ h. elim (under→Covers id p h) [
    | inl e ↦ absurd (ne e)
    | inr (inl e) ↦ ([], rw e (sym (append-nil (split slash p))))
    | inr (inr (r, e)) ↦ (split slash r, rw e (split-append_sep slash p r))
  ]),
  (λ b. elim (split_prefix slash id p b.0 b.1) [
    | inl e ↦ Covers→under id p (inr (inl e))
    | inr w ↦ Covers→under id p (inr (inr w))
  ]),
)

-- A boundary inside a boundary is inside what the outer one is inside of.
pub under_trans : (id p q : Bytes) → under id p ≡ true → under p q ≡ true → under id q ≡ true
under_trans id p q h k = elim (under→Covers id p h) [
  | inl e ↦ elim (under→Covers p q k) [
    | inl f ↦ Covers→under id q (inl f)
    | inr (inl f) ↦ Covers→under id q (inl (sym f ∙ e))
    | inr (inr (r, f)) ↦ absurd (nonempty q r (sym f ∙ e))
  ]
  | inr (inl e) ↦ rw e k
  | inr (inr (r, e)) ↦ elim (under→Covers p q k) [
    | inl f ↦ Covers→under id q (inl f)
    | inr (inl f) ↦ Covers→under id q (inr (inr (r, e ∙ ap (λ s. s ++ (slash ∷ r)) f)))
    | inr (inr (t, f)) ↦ Covers→under id q (
        inr (
          inr (
            t ++ (slash ∷ r),
            e ∙ ap (λ s. s ++ (slash ∷ r)) f ∙ append_assoc q (slash ∷ t) (slash ∷ r),
          )))
  ]
]
  where
    nonempty : (q r : Bytes) → q ++ (slash ∷ r) ≢ []
    nonempty [] r g = cc g
    nonempty (c ∷ q) r g = cc g

-- Two prefixes over one address: one of them is over the other.
pub under_comparable :
    (id p q : Bytes)
    → under id p ≡ true
    → under id q ≡ true
    → (under p q ≡ true) ⊎ (under q p ≡ true)
under_comparable id p q h k = elim (bytes_discrete p []) [
  | yes e ↦ inr (Covers→under q p (inl e))
  | no ne ↦ elim (bytes_discrete q []) [
    | yes e ↦ inl (Covers→under p q (inl e))
    | no nf ↦
        let (a, x) = (under-iff-segments id p ne).0 h in
        let (b, y) = (under-iff-segments id q nf).0 k in
        elim (append_comparable (split slash p) (split slash q) a b (sym x ∙ y)) [
          | inl w ↦ inr ((under-iff-segments q p ne).1 w)
          | inr w ↦ inl ((under-iff-segments p q nf).1 w)
        ]
  ]
]

pub under_refl : (id : Bytes) → under id id ≡ true
under_refl id = Covers→under id id (inr (inl refl))

pub under_root : (id : Bytes) → under id [] ≡ true
under_root id = Covers→under id [] (inl refl)
