-- ===== src/Rose/Defs.antt =====
-- The trees, and the operations on the children of a node.
use gowim.Base.{Bool, Option, none, some, if◌then◌else◌}

mutual
  pub data Tree {ℓ} (A : Type ℓ) : Type ℓ where
    node : A → Forest A → Tree A

  pub data Forest {ℓ} (A : Type ℓ) : Type ℓ where
    nil : Forest A
    cons : Tree A → Forest A → Forest A

module _ {ℓ} {A : Type ℓ} where
  abbrev pub value : Tree A → A
  value (node a cs) = a

  abbrev pub children : Tree A → Forest A
  children (node a cs) = cs

  abbrev pub with_children : Tree A → Forest A → Tree A
  with_children (node a _) cs = node a cs

  -- `append(cs, t)`.
  unfoldable pub snoc : Forest A → Tree A → Forest A
  snoc nil t = cons t nil
  snoc (cons c cs) t = cons c (snoc cs t)

module _ {ℓ} {A : Type ℓ} (p : A → Bool) where
  -- The first child that fits.
  unfoldable pub find : Forest A → Option (Tree A)
  find nil = none
  find (cons c cs) = if p (value c) then some c else find cs

  -- What a write through the pointer to that child leaves.
  unfoldable pub replace : Tree A → Forest A → Forest A
  replace t nil = nil
  replace t (cons c cs) = if p (value c) then cons t cs else cons c (replace t cs)

  -- The children without that child.
  unfoldable pub remove : Forest A → Forest A
  remove nil = nil
  remove (cons c cs) = if p (value c) then cs else cons c (remove cs)
