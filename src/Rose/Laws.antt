-- ===== src/Rose/Laws.antt =====
-- How searches see appended, replaced and removed children.
use gowim.Base.{ap, Bool, false, true, none, some, ◌≡◌, refl, arith}
use gowim.Rose.Defs.{remove, Tree, Forest, nil, cons, value, snoc, find, replace}

module _ {ℓ} {A : Type ℓ} (p : A → Bool) where
  pub find-snoc_new :
      (cs : Forest A) (t : Tree A)
      → find p cs ≡ none
      → p (value t) ≡ true
      → find p (snoc cs t) ≡ some t
  unfolding find snoc
  find-snoc_new nil t h k = ground arith
  find-snoc_new (cons c cs) t h k = ground (arith, find-snoc_new cs t)

  pub find-snoc_old :
      (cs : Forest A) (t c : Tree A) → find p cs ≡ some c → find p (snoc cs t) ≡ some c
  unfolding find snoc
  find-snoc_old nil t c h = cc
  find-snoc_old (cons x cs) t c h = ground (arith, find-snoc_old cs t c)

  pub find-replace :
      (cs : Forest A) (t c : Tree A)
      → find p cs ≡ some c
      → p (value t) ≡ true
      → find p (replace p t cs) ≡ some t
  unfolding find replace
  find-replace nil t c h k = cc
  find-replace (cons x cs) t c h k = ground (arith, find-replace cs t c)

  pub find-fits : (cs : Forest A) (c : Tree A) → find p cs ≡ some c → p (value c) ≡ true
  unfolding find
  find-fits nil c h = cc
  find-fits (cons x cs) c h = ground (arith, find-fits cs c)

  -- Writing the child back leaves the children as they are.
  pub replace_self : (cs : Forest A) (c : Tree A) → find p cs ≡ some c → replace p c cs ≡ cs
  unfolding find replace
  replace_self nil c h = refl
  replace_self (cons x cs) c h = ground (arith, replace_self cs c)

  pub find-snoc_other :
      (cs : Forest A) (t : Tree A) → p (value t) ≡ false → find p (snoc cs t) ≡ find p cs
  unfolding find snoc
  find-snoc_other nil t h = ground arith
  find-snoc_other (cons x cs) t h = ground (arith, find-snoc_other cs t)

  pub find-replace_other :
      (q : A → Bool) (cs : Forest A) (t c : Tree A)
      → find p cs ≡ some c
      → q (value c) ≡ false
      → q (value t) ≡ false
      → find q (replace p t cs) ≡ find q cs
  unfolding find replace
  find-replace_other q nil t c h k l = refl
  find-replace_other q (cons x cs) t c h k l = ground (arith, find-replace_other q cs t c)

  pub find-remove_other :
      (q : A → Bool) (cs : Forest A) (c : Tree A)
      → find p cs ≡ some c
      → q (value c) ≡ false
      → find q (remove p cs) ≡ find q cs
  unfolding find remove
  find-remove_other q nil c h k = refl
  find-remove_other q (cons x cs) c h k = ground (arith, find-remove_other q cs c)

  pub find-remove-none :
      (q : A → Bool) (cs : Forest A) → find q cs ≡ none → find q (remove p cs) ≡ none
  unfolding find remove
  find-remove-none q nil h = refl
  find-remove-none q (cons x cs) h = ground (arith, find-remove-none q cs)

  pub find-replace-none :
      (q : A → Bool) (cs : Forest A) (t c : Tree A)
      → find p cs ≡ some c
      → value t ≡ value c
      → find q cs ≡ none
      → find q (replace p t cs) ≡ none
  unfolding find replace
  find-replace-none q nil t c h e k = refl
  find-replace-none q (cons x cs) t c h e k = ground (arith, find-replace-none q cs t c, ap q e)
