-- ===== src/Routing/Order.antt =====
-- The order of the candidates: `rule_le` is total and transitive, and sorting puts rules into it.
use mathlib.Core.List.{Perm}
use mathlib.Core.List.Perm
use helpdesk_agent.Prelude.{
  ℕ, ◌≡◌, Bool, true, false, ◌&&◌, ◌||◌, List, [], ◌∷◌, ltb, leb, ◌==◌, All, All-map, arith,
  Bool-cases, inl, inr,
}
use helpdesk_agent.Routing.Select.{Ranked, timestamp, rule_le, insert_rule, sort_rules}

-- One step of a lexicographic comparison, `later` deciding between equal numbers.
lex_total :
    (a b : ℕ) (p q : Bool)
    → (p ≡ false → q ≡ true)
    → (ltb a b || (a == b && p)) ≡ false
    → (ltb b a || (b == a && q)) ≡ true
lex_total a b p q k h = ground arith

lex_trans :
    (a b c : ℕ) (p q r : Bool)
    → (p ≡ true → q ≡ true → r ≡ true)
    → (ltb a b || (a == b && p)) ≡ true
    → (ltb b c || (b == c && q)) ≡ true
    → (ltb a c || (a == c && r)) ≡ true
lex_trans a b c p q r k h g = ground arith

leb_total : (a b : ℕ) → leb a b ≡ false → leb b a ≡ true
leb_total a b h = ground arith

leb_trans : (a b c : ℕ) → leb a b ≡ true → leb b c ≡ true → leb a c ≡ true
leb_trans a b c h g = ground arith

abbrev start_of : Ranked → ℕ
start_of r = timestamp r.rule.effective_from

abbrev version_of : Ranked → ℕ
version_of r = r.rule.routing_rule_version_id

rule_le_total : (a b : Ranked) → rule_le a b ≡ false → rule_le b a ≡ true
rule_le_total a b = lex_total a.rule.rule_priority b.rule.rule_priority _ _ (
    lex_total b.rank a.rank _ _
      (lex_total (start_of b) (start_of a) _ _ (leb_total (version_of a) (version_of b))))

rule_le_trans : (a b c : Ranked) → rule_le a b ≡ true → rule_le b c ≡ true → rule_le a c ≡ true
rule_le_trans a b c =
    lex_trans a.rule.rule_priority b.rule.rule_priority c.rule.rule_priority _ _ _ (λ h g.
      lex_trans c.rank b.rank a.rank _ _ _
        (λ k l.
          lex_trans (start_of c) (start_of b) (start_of a) _ _ _
            (λ m n. leb_trans (version_of a) (version_of b) (version_of c) n m) k l)
        g h)

insert-Perm : (r : Ranked) (l : List Ranked) → Perm (insert_rule r l) (r ∷ l)
insert-Perm r [] = Perm.refl (r ∷ [])
insert-Perm r (s ∷ l) = elim (Bool-cases (rule_le r s)) [
  | inl first ↦ rw first (Perm.refl (r ∷ s ∷ l))
  | inr later ↦ rw later (Perm.trans (Perm.cons s (insert-Perm r l)) (Perm.swap r s l))
]

pub sort_rules-Perm : (l : List Ranked) → Perm (sort_rules l) l
sort_rules-Perm [] = Perm.refl []
sort_rules-Perm (r ∷ l) =
    Perm.trans (insert-Perm r (sort_rules l)) (Perm.cons r (sort_rules-Perm l))

-- Every rule comes at most as late as those after it.
abbrev pub Sorted : List Ranked → Type 0
Sorted [] = Unit
Sorted (r ∷ l) = All (λ s. rule_le r s ≡ true) l × Sorted l

insert-All :
    (x r : Ranked) (l : List Ranked)
    → rule_le x r ≡ true
    → All (λ s. rule_le x s ≡ true) l
    → All (λ s. rule_le x s ≡ true) (insert_rule r l)
insert-All x r [] h a = (h, tt)
insert-All x r (s ∷ l) h a = elim (Bool-cases (rule_le r s)) [
  | inl first ↦ rw first (h, a)
  | inr later ↦ rw later (a.0, insert-All x r l h a.1)
]

insert-Sorted : (r : Ranked) (l : List Ranked) → Sorted l → Sorted (insert_rule r l)
insert-Sorted r [] o = (tt, tt)
insert-Sorted r (s ∷ l) o = elim (Bool-cases (rule_le r s)) [
  | inl first ↦ rw first ((first, All-map l (λ t q. rule_le_trans r s t first q) o.0), o)
  | inr later ↦ rw later (insert-All s r l (rule_le_total r s later) o.0, insert-Sorted r l o.1)
]

pub sort_rules-Sorted : (l : List Ranked) → Sorted (sort_rules l)
sort_rules-Sorted [] = tt
sort_rules-Sorted (r ∷ l) = insert-Sorted r (sort_rules l) (sort_rules-Sorted l)
