-- ===== src/Descriptor/Owners.antt =====
-- Every open descriptor of include/ioutils/file_descriptor_base.hpp has one owner.
use libcoio.Base.{
  put, put-here, put-there, ℕ, ◌≡◌, refl, sym, ap, ◌∙◌, ◌≢◌, ◌↔◌, inl, inr, Bool, true, false, not,
  ◌==◌, if◌then◌else◌, ==_iff, Bool-cases, ℤ, pos, negsuc,
}
use mathlib.Core.Path.{subst}
use libcoio.Descriptor.{
  Process, invalid, kernel_close, same_fd, destructor, construct, take_over, move_construct,
  move_assign, close, destroy,
}

-- The object `i` lives and holds the descriptor `n`.
abbrev pub Holds : Process → ℕ → ℕ → Type 0
Holds p i n = (p.alive i ≡ true) × (p.fd i ≡ pos n)

pub record IsOwned (p : Process) : Type 0 where
  pub opens : (i n : ℕ) → Holds p i n → p.is_open n ≡ true
  pub unique : (i j n : ℕ) → Holds p i n → Holds p j n → i ≡ j
  pub owned : (n : ℕ) → p.is_open n ≡ true → (i : ℕ) × Holds p i n

-- Where two objects have the same descriptors and lifetimes but at `i`, where the new one holds nothing,
-- and what `i` held has been closed.
pub released :
    (i : ℕ) (p q : Process)
    → ((k n : ℕ) → k ≢ i → Holds q k n ↔ Holds p k n)
    → ((n : ℕ) → ¬ Holds q i n)
    → ((n : ℕ) → (q.is_open n ≡ true) ↔ ((p.is_open n ≡ true) × ¬ Holds p i n))
    → IsOwned p
    → IsOwned q
released i p q same gone closed h = record {
  opens = λ k n x.
      let away : k ≢ i = λ e. gone n (subst (λ m. Holds q m n) e x) in
      let y = (same k n away).0 x in (closed n).1 (h.opens k n y, (λ e. away (h.unique k i n y e)));
  unique = λ k l n x y.
      let k_away : k ≢ i = λ e. gone n (subst (λ m. Holds q m n) e x) in
      let l_away : l ≢ i = λ e. gone n (subst (λ m. Holds q m n) e y) in
      h.unique k l n ((same k n k_away).0 x) ((same l n l_away).0 y);
  owned = λ n x.
      let (o, other) = (closed n).0 x in
      let (k, y) = h.owned n o in
      let away : k ≢ i = λ e. other (subst (λ m. Holds p m n) e y) in (k, (same k n away).1 y);
}

-- Where `i`, which held nothing, holds what `j` held, and `j` holds nothing any more.
pub handed :
    (i j : ℕ) (p q : Process)
    → ((n : ℕ) → ¬ Holds p i n)
    → ((n : ℕ) → Holds q i n ↔ Holds p j n)
    → ((n : ℕ) → ¬ Holds q j n)
    → ((k n : ℕ) → k ≢ i → k ≢ j → Holds q k n ↔ Holds p k n)
    → ((n : ℕ) → q.is_open n ≡ p.is_open n)
    → IsOwned p
    → IsOwned q
handed i j p q empty moved gone same table h = record {
  opens = λ k n x. table n ∙ elim (Bool-cases (k == i)) [
    | inl e ↦ h.opens j n ((moved n).0 (subst (λ m. Holds q m n) ((==_iff k i).0 e) x))
    | inr e ↦ h.opens k n ((same k n (other k i e) (away k n x)).0 x)
  ];
  unique = λ k l n x y. elim (Bool-cases (k == i)) [
    | inl e ↦ elim (Bool-cases (l == i)) [
      | inl f ↦ (==_iff k i).0 e ∙ sym ((==_iff l i).0 f)
      | inr f ↦ absurd (
          away l n y (
            sym (
              h.unique j l n ((moved n).0 (subst (λ m. Holds q m n) ((==_iff k i).0 e) x))
                ((same l n (other l i f) (away l n y)).0 y))))
    ]
    | inr e ↦ elim (Bool-cases (l == i)) [
      | inl f ↦ absurd (
          away k n x (
            h.unique k j n ((same k n (other k i e) (away k n x)).0 x)
              ((moved n).0 (subst (λ m. Holds q m n) ((==_iff l i).0 f) y))))
      | inr f ↦
          h.unique k l n ((same k n (other k i e) (away k n x)).0 x)
            ((same l n (other l i f) (away l n y)).0 y)
    ]
  ];
  owned = λ n x.
      let (m, y) = h.owned n (sym (table n) ∙ x) in
      elim (Bool-cases (m == j)) [
        | inl e ↦ (i, (moved n).1 (subst (λ k. Holds p k n) ((==_iff m j).0 e) y))
        | inr e ↦ (m, (same m n (λ f. empty n (subst (λ k. Holds p k n) f y)) (other m j e)).1 y)
      ];
}
  where
    other : (k l : ℕ) → (k == l) ≡ false → k ≢ l
    other k l e f = cc (e, (==_iff k l).1 f)

    away : (k n : ℕ) → Holds q k n → k ≢ j
    away k n x e = gone n (subst (λ m. Holds q m n) e x)

closed_iff :
    (x : ℤ) (f : ℕ → Bool) (n : ℕ) → (kernel_close x f n ≡ true) ↔ ((f n ≡ true) × (x ≢ pos n))
closed_iff (negsuc m) f n = ((λ o. (o, (λ e. cc (e)))), (λ o. o.0))
closed_iff (pos m) f n = elim (Bool-cases (n == m)) [
  | inl e ↦ rw e ((λ o. cc (o)), (λ o. absurd (o.1 (ap pos (sym ((==_iff n m).0 e))))))
  | inr e ↦
      rw e ((λ o. (o, (λ q. let s : m ≡ n = cc (q) in cc (e, (==_iff n m).1 (sym s))))), (λ o. o.0))
]

destructor_lem :
    (i : ℕ) (p : Process) (x : ℤ)
    → p.fd i ≡ x
    → destructor i p ≡ record p { is_open = kernel_close x p.is_open }
destructor_lem i p (pos n) e = rw (e, destructor) refl
destructor_lem i p (negsuc n) e = rw (e, destructor) refl

-- The same for an object that lives.
pub closed_live :
    (i : ℕ) (p : Process)
    → p.alive i ≡ true
    → (n : ℕ) → (kernel_close (p.fd i) p.is_open n ≡ true) ↔ ((p.is_open n ≡ true) × ¬ Holds p i n)
closed_live i p live n =
    let c = closed_iff (p.fd i) p.is_open n in
    ((λ o. ((c.0 o).0, (λ e. (c.0 o).1 e.1))), (λ o. c.1 (o.0, (λ e. o.1 (live, e)))))

pub close-IsOwned : (i : ℕ) (p : Process) → p.alive i ≡ true → IsOwned p → IsOwned (close i p)
close-IsOwned i p live h =
    released i p (close i p) (λ k n away. rw (put-there p.fd i k invalid away) ((λ x. x), (λ x. x)))
      (λ n x. cc (x.1, put-here p.fd i invalid)) (closed_live i p live) h

pub destroy-IsOwned : (i : ℕ) (p : Process) → p.alive i ≡ true → IsOwned p → IsOwned (destroy i p)
destroy-IsOwned i p live h = rw (destructor_lem i p (p.fd i) refl) (
    released i p _ (λ k n away. rw (put-there p.alive i k false away) ((λ x. x), (λ x. x)))
      (λ n x. cc (x.0, put-here p.alive i false)) (closed_live i p live) h)

pub construct-IsOwned :
    (i : ℕ) (p : Process) → p.alive i ≡ false → IsOwned p → IsOwned (construct i p)
construct-IsOwned i p dead h =
    released i p (construct i p)
      (λ k n away.
        rw (put-there p.fd i k invalid away, put-there p.alive i k true away) ((λ x. x), (λ x. x)))
      (λ n x. cc (x.1, put-here p.fd i invalid))
      (λ n. ((λ o. (o, (λ e. cc (e.0, dead)))), (λ o. o.0))) h

-- The object `i` takes over what `j` holds.
take_over-Holds :
    (i j : ℕ) (p : Process)
    → i ≢ j
    → ((take_over i j p).fd i ≡ p.fd j)
      × ((take_over i j p).fd j ≡ invalid)
      × ((k : ℕ) → k ≢ i → k ≢ j → (take_over i j p).fd k ≡ p.fd k)
take_over-Holds i j p apart = (
  put-there (put p.fd i (p.fd j)) j i invalid apart ∙ put-here p.fd i (p.fd j),
  put-here (put p.fd i (p.fd j)) j invalid,
  (λ k a b. put-there (put p.fd i (p.fd j)) j k invalid b ∙ put-there p.fd i k (p.fd j) a),
)

pub move_construct-IsOwned :
    (i j : ℕ) (p : Process)
    → p.alive i ≡ false
    → p.alive j ≡ true
    → IsOwned p
    → IsOwned (move_construct i j p)
move_construct-IsOwned i j p dead live h =
    let apart : i ≢ j = λ e. cc (ap p.alive e, dead, live) in
    let (got, left, rest) = take_over-Holds i j (record p { alive = put p.alive i true }) apart in
    handed i j p (move_construct i j p) (λ n e. cc (e.0, dead))
      (λ n. ((λ x. (live, sym got ∙ x.1)), (λ x. (put-here p.alive i true, got ∙ x.1))))
      (λ n x. cc (x.1, left))
      (λ k n a b. (
        (λ x. (sym (put-there p.alive i k true a) ∙ x.0, sym (rest k a b) ∙ x.1)),
        (λ x. (put-there p.alive i k true a ∙ x.0, rest k a b ∙ x.1)),
      ))
      (λ n. refl) h

-- In `operator=` the old descriptor is closed, unless there is none.
assign_table :
    (i j : ℕ) (p : Process) (x y : ℤ)
    → p.fd i ≡ x
    → p.fd j ≡ y
    → i ≢ j
    → p.alive i ≡ true
    → p.alive j ≡ true
    → IsOwned p
    → (if not (same_fd y x) then destructor i p else p)
      ≡ record p { is_open = kernel_close x p.is_open }
assign_table i j p (negsuc m) (pos n) ei ej apart live other h = destructor_lem i p (negsuc m) ei
assign_table i j p (pos m) (negsuc n) ei ej apart live other h = destructor_lem i p (pos m) ei
assign_table i j p (negsuc m) (negsuc n) ei ej apart live other h = elim (Bool-cases (n == m)) [
  | inl e ↦ rw e refl
  | inr e ↦ rw e (destructor_lem i p (negsuc m) ei)
]
assign_table i j p (pos m) (pos n) ei ej apart live other h = elim (Bool-cases (n == m)) [
  | inl e ↦ absurd (apart (h.unique i j m (live, ei) (other, ej ∙ ap pos ((==_iff n m).0 e))))
  | inr e ↦ rw e (destructor_lem i p (pos m) ei)
]

pub move_assign-IsOwned :
    (i j : ℕ) (p : Process)
    → i ≢ j
    → p.alive i ≡ true
    → p.alive j ≡ true
    → IsOwned p
    → IsOwned (move_assign i j p)
move_assign-IsOwned i j p apart live other h =
    let q = record p { is_open = kernel_close (p.fd i) p.is_open } in
    let (got, left, rest) = take_over-Holds i j q apart in
    rw (assign_table i j p (p.fd i) (p.fd j) refl refl apart live other h) (
      handed i j (close i p) (take_over i j q) (λ n e. cc (e.1, put-here p.fd i invalid))
        (λ n. (
          (λ x. (other, put-there p.fd i j invalid (λ e. apart (sym e)) ∙ sym got ∙ x.1)),
          (λ x. (live, got ∙ sym (put-there p.fd i j invalid (λ e. apart (sym e))) ∙ x.1)),
        ))
        (λ n x. cc (x.1, left))
        (λ k n a b. (
          (λ x. (x.0, put-there p.fd i k invalid a ∙ sym (rest k a b) ∙ x.1)),
          (λ x. (x.0, rest k a b ∙ sym (put-there p.fd i k invalid a) ∙ x.1)),
        ))
        (λ n. refl) (close-IsOwned i p live h))
