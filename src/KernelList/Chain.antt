-- ===== src/KernelList/Chain.antt =====
-- What it is for the links to hold a list, and how a chain of links survives a change.
use ukernel.Prelude.{
  ℕ, ◌≡◌, ◌≢◌, true, false, List, [], ◌∷◌, ◌++◌, arith, ◌==◌, if◌then◌else◌, has, Distinct,
}
use ukernel.KernelList.{Links, Ends}

-- From `p` the links lead through `xs` to `q`, and back.
abbrev pub Chain : Links → ℕ → List ℕ → ℕ → Type 0
Chain h p [] q = (h.next p ≡ q) × (h.prev q ≡ p)
Chain h p (x ∷ xs) q = (h.next p ≡ x) × (h.prev x ≡ p) × Chain h x xs q

-- The list holds the elements `xs`, in order; the sentinels are no elements.
pub record IsList (h : Links) (l : Ends) (xs : List ℕ) : Type 0 where
  pub chain : Chain h l.head xs l.tail
  pub distinct : Distinct xs
  pub head_out : has l.head xs ≡ false
  pub tail_out : has l.tail xs ≡ false
  pub ends : l.head ≢ l.tail

-- all tags of a list: its sentinels and its elements
abbrev pub tags : Ends → List ℕ → List ℕ
tags l xs = l.head ∷ l.tail ∷ xs

-- The links of all addresses but those listed are the same in both.
abbrev pub SameOutside : List ℕ → Links → Links → Type 0
SameOutside ts h g = (a : ℕ) → has a ts ≡ false → (g.next a ≡ h.next a) × (g.prev a ≡ h.prev a)

pub prev_mem : (h : Links) (p q : ℕ) (xs : List ℕ) → Chain h p xs q → has (h.prev q) (p ∷ xs) ≡ true
prev_mem h p q [] c = ground arith
prev_mem h p q (x ∷ xs) c = ground (arith, prev_mem h x q xs (c.2))

-- A chain does not feel a change elsewhere.
pub frame :
    (h g : Links) (p q : ℕ) (xs : List ℕ)
    → Chain h p xs q
    → ((a : ℕ) → has a (p ∷ xs) ≡ true → g.next a ≡ h.next a)
    → ((a : ℕ) → has a (q ∷ xs) ≡ true → g.prev a ≡ h.prev a)
    → Chain g p xs q
frame h g p q [] c n v = ground (arith, n p, v q)
frame h g p q (x ∷ xs) c n v = (
  ground (arith, n p),
  ground (arith, v x),
  frame h g x q xs (c.2) (λ a m. n a (ground arith)) (λ a m. v a (ground arith)),
)

-- The last link of a chain is led to `r` in place of `q`.
pub relink :
    (h g : Links) (p q r : ℕ) (xs : List ℕ)
    → Chain h p xs q
    → Distinct (p ∷ xs)
    → ((a : ℕ) → has a (p ∷ xs) ≡ true → g.next a ≡ (if a == h.prev q then r else h.next a))
    → ((a : ℕ) → has a xs ≡ true → g.prev a ≡ h.prev a)
    → g.prev r ≡ h.prev q
    → Chain g p xs r
relink h g p q r [] c d n v e = ground (arith, n p)
relink h g p q r (x ∷ xs) c d n v e = (
  ground (arith, n p, prev_mem h x q xs (c.2)),
  ground (arith, v x),
  relink h g x q r xs (c.2) (d.1) (λ a m. n a (ground arith)) (λ a m. v a (ground arith)) e,
)

pub append :
    (h : Links) (p q r : ℕ) (xs ys : List ℕ)
    → Chain h p xs q
    → Chain h q ys r
    → Chain h p (xs ++ q ∷ ys) r
append h p q r [] ys c d = (c.0, c.1, d)
append h p q r (x ∷ xs) ys c d = (c.0, c.1, append h x q r xs ys (c.2) d)

-- A chain falls apart at each of its elements.
pub split :
    (h : Links) (p q r : ℕ) (xs ys : List ℕ)
    → Chain h p (xs ++ q ∷ ys) r
    → Chain h p xs q × Chain h q ys r
split h p q r [] ys c = ((c.0, c.1), c.2)
split h p q r (x ∷ xs) ys c = let (a, b) = split h x q r xs ys (c.2) in ((c.0, c.1, a), b)

-- A list that has no tag among those whose links changed is held as before.
pub IsList-elsewhere :
    (h g : Links) (l : Ends) (xs ts : List ℕ)
    → IsList h l xs
    → SameOutside ts h g
    → ((a : ℕ) → has a (tags l xs) ≡ true → has a ts ≡ false)
    → IsList g l xs
IsList-elsewhere h g l xs ts is same apart = record {
  chain =
      frame h g l.head l.tail xs is.chain (λ a m. (same a (apart a (ground arith))).0)
        (λ a m. (same a (apart a (ground arith))).1);
  distinct = is.distinct;
  head_out = is.head_out;
  tail_out = is.tail_out;
  ends = is.ends;
}
