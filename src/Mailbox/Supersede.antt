-- ===== src/Mailbox/Supersede.antt =====
-- The nodes after a push: the new one comes last, and the one that it supersedes is gone.
use mathlib.Core.Option
use gce.Prelude.{
  ℕ, suc, ◌≡◌, List, [], ◌∷◌, ◌++◌, Option, none, some, arith, if◌then◌else◌, Option-cases, inl,
  inr,
}
use mathlib.Core.List.{map-append}
use gce.Mailbox.{Cell}
use gce.Mailbox.Inbox.{ExitKey, same, same_symm, same_trans, same_congr, arrive}
use gce.Mailbox.Cells.{
  Span, NoTwins, view, cell_key, holder, del, Span-del, Span-append, holder-append, holder-key,
  holder-same, deref-holder, holder-del, NoTwins-del, NoTwins-append, drop_exit-view,
  drop_exit-view-none,
}

abbrev pub supersede : Option Cell → List Cell → List Cell
supersede none q = q
supersede (some old) q = del old.addr q

module _ (n : ℕ) (c : Cell) (q : List Cell) (s : Span 0 n q) (t : NoTwins q) where
  left_holder :
      (j : ExitKey)
      → holder j (supersede (holder (cell_key c) q) q)
        ≡ (if same (cell_key c) j then none else holder j q)
  left_holder j = elim (Option-cases (holder (cell_key c) q)) [
    | inl e ↦ rw e (ground (arith, holder-same (cell_key c) j q))
    | inr (old, e) ↦
        let at = (deref-holder 0 n (cell_key c) q old s e).0 in
        let k = holder-key (cell_key c) q old e in
        rw e (
          ground
            (arith, holder-del old.addr j q old t at, same_congr (cell_key old) (cell_key c) j k))
  ]

  left_twins : NoTwins (supersede (holder (cell_key c) q) q)
  left_twins = elim (Option-cases (holder (cell_key c) q)) [
    | inl e ↦ rw e t
    | inr (old, e) ↦ rw e (NoTwins-del old.addr q t)
  ]

  left-Span : Span 0 n (supersede (holder (cell_key c) q) q)
  left-Span = elim (Option-cases (holder (cell_key c) q)) [
    | inl e ↦ rw e s
    | inr (old, e) ↦ rw e (Span-del 0 n old.addr q s)
  ]

  pub pushed-Span : c.addr ≡ n → Span 0 (suc n) (supersede (holder (cell_key c) q) q ++ (c ∷ []))
  pushed-Span e = Span-append 0 n _ c left-Span e

  pub pushed_holder :
      (j : ExitKey)
      → holder j (supersede (holder (cell_key c) q) q ++ (c ∷ []))
        ≡ (if same (cell_key c) j then some c else holder j q)
  unfolding Option.or_else
  pushed_holder j =
      rw (holder-append j (supersede (holder (cell_key c) q) q) c, left_holder j) (ground arith)

  left_none : holder (cell_key c) (supersede (holder (cell_key c) q) q) ≡ none
  left_none = elim (Option-cases (holder (cell_key c) q)) [
    | inl e ↦ rw (left_holder (cell_key c)) (ground arith)
    | inr (old, e) ↦ rw (left_holder (cell_key c)) (
        ground (
          arith,
          holder-key (cell_key c) q old e,
          same_symm (cell_key old) (cell_key c),
          same_trans (cell_key c) (cell_key old) (cell_key c),
        ))
  ]

  pub pushed_twins : NoTwins (supersede (holder (cell_key c) q) q ++ (c ∷ []))
  pushed_twins = NoTwins-append _ c left_twins left_none

  pub pushed_view :
      view (supersede (holder (cell_key c) q) q ++ (c ∷ [])) ≡ arrive c.src c.msg (view q)
  unfolding arrive
  pushed_view = elim (Option-cases (holder (cell_key c) q)) [
    | inl e ↦ rw (e, drop_exit-view-none (cell_key c) q e) (map-append _ q (c ∷ []))
    | inr (old, e) ↦
        rw (e, drop_exit-view 0 n (cell_key c) q old s e) (map-append _ (del old.addr q) (c ∷ []))
  ]
