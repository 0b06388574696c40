-- ===== src/Task/Links.antt =====
-- Insertion into a ring and removal from it.
use cane.Common.{ℕ, ◌≡◌, refl, true, false, ◌||◌, List, [], ◌∷◌, ◌++◌, arith}
use mathlib.Core.List.{append-nil}
use cane.Task.Memory.{update}
use cane.Task.Ring.{
  has, ◌∉◌, Distinct, Linked, Ring, last-has, Linked-set_next, Linked-set_prev, Linked-redirect,
}

-- The writes of an insertion of `t` before the head `x`.
pub Ring-insert :
    (next prev : ℕ → ℕ) (t x : ℕ) (xs : List ℕ)
    → Distinct (x ∷ xs)
    → t ∉ x ∷ xs
    → Ring next prev (x ∷ xs)
    → Ring (update (update next t x) (prev x) t) (update (update prev t (prev x)) x t) (t ∷ x ∷ xs)
Ring-insert next prev t x xs d out l =
    let l1 = Linked-set_next next prev t x x xs x out l in
    let l2 = Linked-redirect (update next t x) prev x xs x t d (ground arith) d.0 l1 in
    let l3 =
      Linked-set_prev (update (update next t x) (prev x) t) (update prev t (prev x)) x t x xs t
        (ground arith) l2 in
    (ground (arith, last-has next prev x xs x l), ground arith, l3)

pub Linked-append :
    (next prev : ℕ → ℕ) (a : ℕ) (xs : List ℕ) (b : ℕ) (ys : List ℕ) (c : ℕ)
    → Linked next prev a xs b
    → Linked next prev b ys c
    → Linked next prev a (xs ++ (b ∷ ys)) c
Linked-append next prev a [] b ys c (n, p) k = (n, p, k)
Linked-append next prev a (x ∷ xs) b ys c (n, p, l) k =
    (n, p, Linked-append next prev x xs b ys c l k)

pub Linked-split :
    (next prev : ℕ → ℕ) (a : ℕ) (xs : List ℕ) (b : ℕ) (ys : List ℕ) (c : ℕ)
    → Linked next prev a (xs ++ (b ∷ ys)) c
    → Linked next prev a xs b × Linked next prev b ys c
Linked-split next prev a [] b ys c (n, p, k) = ((n, p), k)
Linked-split next prev a (x ∷ xs) b ys c (n, p, l) =
    let (h, k) = Linked-split next prev x xs b ys c l in ((n, p, h), k)

pub has-append : (a : ℕ) (xs ys : List ℕ) → has a (xs ++ ys) ≡ (has a xs || has a ys)
has-append a [] ys = refl
has-append a (x ∷ xs) ys = ground (arith, has-append a xs ys)

pub Distinct-split :
    (xs : List ℕ) (t : ℕ) (ys : List ℕ)
    → Distinct (xs ++ (t ∷ ys))
    → Distinct (xs ++ ys) × (t ∉ xs ++ ys) × Distinct xs × ((a : ℕ) → has a xs ≡ true → a ∉ t ∷ ys)
Distinct-split [] t ys (out, d) = (d, out, tt, λ a h. cc)
Distinct-split (x ∷ xs) t ys (out, d) =
    let (e, f, g, h) = Distinct-split xs t ys d in
    let o : has x xs || has x (t ∷ ys) ≡ false = rw (has-append x xs (t ∷ ys)) at out in
    (
      (rw (has-append x xs ys) (ground arith), e),
      ground arith,
      (ground arith, g),
      λ a k. ground (arith, h a),
    )

Distinct-right : (xs ys : List ℕ) → Distinct (xs ++ ys) → Distinct ys
Distinct-right [] ys d = d
Distinct-right (x ∷ xs) ys (out, d) = Distinct-right xs ys d

-- The writes of `unlink`: the neighbours of `t` are linked to one another. The ring stands from its
-- head, or from `t` when `t` is the head.
pub Ring-unlink_head :
    (next prev : ℕ → ℕ) (t y : ℕ) (ys : List ℕ)
    → Distinct (t ∷ y ∷ ys)
    → Ring next prev (t ∷ y ∷ ys)
    → (next t ≡ y) × Ring (update next (prev t) y) (update prev y (prev t)) (y ∷ ys)
Ring-unlink_head next prev t y ys d (n, p, l) =
    (n, Linked-redirect next prev y ys t y d.1 d.1.0 (ground arith) l)

pub Ring-unlink :
    (next prev : ℕ → ℕ) (x : ℕ) (xs : List ℕ) (t : ℕ) (ys : List ℕ)
    → Distinct (x ∷ xs ++ (t ∷ ys))
    → Ring next prev (x ∷ xs ++ (t ∷ ys))
    → Ring (update next (prev t) (next t)) (update prev (next t) (prev t)) (x ∷ xs ++ ys)
Ring-unlink next prev x xs t [] d l =
    let (h, (n, p)) = Linked-split next prev x xs t [] x l in
    let (e, f, g, k) = Distinct-split (x ∷ xs) t [] d in
    let out : t ∉ x ∷ xs = rw append-nil at f in
    rw (n, append-nil) (Linked-redirect next prev x xs t x g g.0 (ground arith) h)
Ring-unlink next prev x xs t (y ∷ ys) d l =
    let (h, (n, p, k)) = Linked-split next prev x xs t (y ∷ ys) x l in
    let (e, f, g, apart) = Distinct-split (x ∷ xs) t (y ∷ ys) d in
    let (out, e') = Distinct-right (x ∷ xs) (t ∷ y ∷ ys) d in
    let f' : has t (x ∷ xs) || has t (y ∷ ys) ≡ false = rw (has-append t (x ∷ xs) (y ∷ ys)) at f in
    let y_out : y ∉ xs = ground (arith, apart y) in
    rw n (
      Linked-append _ _ x xs y ys x (Linked-redirect next prev x xs t y g y_out (ground arith) h) (
        Linked-set_prev (update next (prev t) y) prev y (prev t) y ys x (ground (arith, apart x)) (
          Linked-set_next next prev (prev t) y y ys x
            (ground (arith, apart (prev t), last-has next prev x xs t h)) k)))
