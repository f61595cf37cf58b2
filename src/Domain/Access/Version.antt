-- ===== src/Domain/Access/Version.antt =====
-- The version of a policy: it depends on the grants and not on their order, and no two policies
-- share the text that is hashed.
use mathlib.Core.List.{Perm}
use ochakai.Common.{
  ℕ, ◌<◌, Bool, true, false, List, [], ◌∷◌, ◌++◌, map, ◌≡◌, ◌≢◌, refl, sym, ap, ◌∙◌, arith,
  append_assoc, All, ◌==◌, false≢true, any-append,
}
use ochakai.Common.Sorting.{sort, sort-perm, sort_of_IsAscending}
use ochakai.Text.{Bytes, codes, bytes_discrete, has_byte, contains_any}
use ochakai.Domain.Segments.Laws.{valid_id_prefix-lacks}
use ochakai.Domain.Actor.{valid_principal}
use ochakai.Domain.Access.{
  AccessRule, rule_lt, grant_word, rule_line, policy_text, access_policy_version,
}
use ochakai.Domain.Access.Validate.{
  IsGrant, IsPolicy, HasDistinctKeys, HasDistinctKeys-IsUntied, rule_lt-IsStrict,
}

AccessRule-set : IsSet (List AccessRule)
AccessRule-set = hlevel

-- Two readings of one policy have one version, whatever order the rules were read in.
pub version-perm :
    (digest : Bytes → Bytes) {xs ys : List AccessRule}
    → Perm xs ys
    → HasDistinctKeys xs
    → access_policy_version digest xs ≡ access_policy_version digest ys
unfolding access_policy_version
version-perm digest {xs} p h =
    ap (λ l. digest (policy_text l))
      (sort-perm rule_lt rule_lt-IsStrict AccessRule-set p (HasDistinctKeys-IsUntied xs h))

-- A text up to its first `b` is decided by the whole.
pub cut_first :
    (b : ℕ) (p q x y : Bytes)
    → has_byte b p ≡ false
    → has_byte b q ≡ false
    → p ++ (b ∷ x) ≡ q ++ (b ∷ y)
    → (p ≡ q) × (x ≡ y)
cut_first b [] [] x y h k e = (refl, cc)
cut_first b [] (d ∷ q) x y h k e = absurd (ground arith)
cut_first b (c ∷ p) [] x y h k e = absurd (ground arith)
cut_first b (c ∷ p) (d ∷ q) x y h k e =
    let (f, g) = cut_first b p q x y (ground arith) (ground arith) (cc) in (cc, g)

has_byte_middle : (b : ℕ) (q w : Bytes) → has_byte b (q ++ (b ∷ w)) ≡ true
has_byte_middle b [] w = ground arith
has_byte_middle b (c ∷ q) w = ground (arith, has_byte_middle b q w)

-- So is a text from behind its last `b`.
cut_last :
    (b : ℕ) (p q v w : Bytes)
    → has_byte b v ≡ false
    → has_byte b w ≡ false
    → p ++ (b ∷ v) ≡ q ++ (b ∷ w)
    → (p ≡ q) × (v ≡ w)
cut_last b [] [] v w h k e = (refl, cc)
cut_last b [] (d ∷ q) v w h k e =
    let f : v ≡ q ++ (b ∷ w) = cc in
    absurd (false≢true (sym h ∙ ap (has_byte b) f ∙ has_byte_middle b q w))
cut_last b (c ∷ p) [] v w h k e =
    let f : w ≡ p ++ (b ∷ v) = cc in
    absurd (false≢true (sym k ∙ ap (has_byte b) f ∙ has_byte_middle b p v))
cut_last b (c ∷ p) (d ∷ q) v w h k e = let (f, g) = cut_last b p q v w h k (cc) in (cc, g)

contains_any-lacks :
    (s : Bytes) → contains_any s (codes " \t\r\n") ≡ false → has_byte b'\n' s ≡ false
contains_any-lacks [] h = refl
contains_any-lacks (c ∷ s) h = ground (arith, contains_any-lacks s)

principal-lacks : (s : Bytes) → valid_principal s ≡ true → has_byte b'\n' s ≡ false
unfolding valid_principal
principal-lacks s h = elim (bytes_discrete s (codes "*")) [
  | yes e ↦ rw e
  | no ne ↦ contains_any-lacks s (ground arith)
]

word-lacks : (b : ℕ) (r : AccessRule) → b < 0x20 → has_byte b (grant_word r) ≡ false
unfolding grant_word
word-lacks b r h = ground arith

-- What a rule grants, without who wrote it and when.
abbrev pub Grant : Type 0
Grant = Bytes × Bytes × Bool × Bool

abbrev pub grant_of : AccessRule → Grant
grant_of r = (r.prefix, r.principal, r.may_write, r.may_admin)

word_injective :
    (r s : AccessRule)
    → IsGrant r
    → IsGrant s
    → grant_word r ≡ grant_word s
    → (r.may_write ≡ s.may_write) × (r.may_admin ≡ s.may_admin)
unfolding grant_word
word_injective r s g h e = ground arith

line_shape :
    (r : AccessRule) (x : Bytes)
    → rule_line r ++ x ≡ r.prefix ++ (0 ∷ ((r.principal ++ (0 ∷ grant_word r)) ++ (b'\n' ∷ x)))
unfolding rule_line
line_shape r x = simp append_assoc

line-lacks :
    (r : AccessRule) → IsGrant r → has_byte b'\n' (r.principal ++ (0 ∷ grant_word r)) ≡ false
line-lacks r g = rw (any-append (λ c. c == b'\n') r.principal (0 ∷ grant_word r)) (
    ground (arith, principal-lacks r.principal g.principal_valid, word-lacks b'\n' r (omega arith)))

-- The first line of a text decides the first rule, and what follows the line.
line_injective :
    (r s : AccessRule) (x y : Bytes)
    → IsGrant r
    → IsGrant s
    → rule_line r ++ x ≡ rule_line s ++ y
    → (grant_of r ≡ grant_of s) × (x ≡ y)
line_injective r s x y g h e =
    let (prefixes, e₁) =
      cut_first 0 r.prefix s.prefix _ _
        (valid_id_prefix-lacks 0 r.prefix (omega arith) g.prefix_valid)
        (valid_id_prefix-lacks 0 s.prefix (omega arith) h.prefix_valid)
        (sym (line_shape r x) ∙ e ∙ line_shape s y) in
    let (heads, tails) =
      cut_first b'\n' (r.principal ++ (0 ∷ grant_word r)) (s.principal ++ (0 ∷ grant_word s)) x y
        (line-lacks r g) (line-lacks s h) e₁ in
    let (principals, words) =
      cut_last 0 r.principal s.principal (grant_word r) (grant_word s)
        (word-lacks 0 r (omega arith)) (word-lacks 0 s (omega arith)) heads in
    let (writes, admins) = word_injective r s g h words in (cc, tails)

line-ne-nil : (r : AccessRule) (x : Bytes) → rule_line r ++ x ≢ []
unfolding rule_line
line-ne-nil r x e = nonempty r.prefix _ (sym (append_assoc r.prefix _ x) ∙ e)
  where
    nonempty : (p q : Bytes) → p ++ (0 ∷ q) ≢ []
    nonempty [] q h = cc h
    nonempty (c ∷ p) q h = cc h

-- Two lists of grants with one text are one list of grants.
pub policy_text-injective :
    (xs ys : List AccessRule)
    → All IsGrant xs
    → All IsGrant ys
    → policy_text xs ≡ policy_text ys
    → map grant_of xs ≡ map grant_of ys
unfolding policy_text
policy_text-injective [] [] g h e = refl
policy_text-injective [] (s ∷ ys) g h e = absurd (line-ne-nil s (policy_text ys) (sym e))
policy_text-injective (r ∷ xs) [] g h e = absurd (line-ne-nil r (policy_text xs) e)
policy_text-injective (r ∷ xs) (s ∷ ys) (g, gs) (h, hs) e =
    let (grants, rest) = line_injective r s (policy_text xs) (policy_text ys) g h e in
    cc (policy_text-injective xs ys gs hs rest)

-- Policies that grant different things have different versions, as far as the digest tells
-- their two texts apart.
pub version-injective :
    (digest : Bytes → Bytes) (xs ys : List AccessRule)
    → (digest (policy_text xs) ≡ digest (policy_text ys) → policy_text xs ≡ policy_text ys)
    → IsPolicy xs
    → IsPolicy ys
    → access_policy_version digest xs ≡ access_policy_version digest ys
    → map grant_of xs ≡ map grant_of ys
unfolding access_policy_version
version-injective digest xs ys no_collision p q e =
    policy_text-injective xs ys p.grants q.grants
      (no_collision (rw (← sorted xs p, ← sorted ys q) e))
  where
    sorted : (zs : List AccessRule) → IsPolicy zs → sort rule_lt zs ≡ zs
    sorted zs r = sort_of_IsAscending rule_lt zs r.ascending rule_lt-IsStrict.asymm
