-- ===== src/Handles/Owners.antt =====
-- Every coroutine frame that has not been destroyed has one owner.
use libcoio.Base.{
  put, put-here, put-there, ℕ, ◌≡◌, refl, sym, ap, ◌∙◌, ◌≢◌, inl, inr, true, false, Option, none,
  some, ◌==◌, Bool-cases, Option-cases, ℤ, pos,
}
use mathlib.Core.Path.{subst}
use libcoio.Descriptor.{Process, invalid, kernel_close}
use libcoio.Descriptor.Owners.{Holds, IsOwned, released, handed, closed_live}
use libcoio.Descriptor.Session.{construct_from-IsOwned}
use libcoio.Handles.{Frames, make, destructor, move_construct}
use libcoio.Descriptor

-- A null handle is no descriptor.
abbrev pub number : Option ℕ → ℤ
number none = invalid
number (some n) = pos n

-- The frames as descriptors: a frame is open until it is destroyed.
abbrev pub view : Frames → Process
view s = record { fd = λ i. number (s.m_handle i); alive = s.alive; is_open = s.live }

-- The object `i` has let go of its frame, which is destroyed.
abbrev pub Released : ℕ → Frames → Frames → Type 0
Released i s t =
    (t.m_handle i ≡ none)
    × ((k : ℕ) → k ≢ i → t.m_handle k ≡ s.m_handle k)
    × (t.alive ≡ s.alive)
    × ((n : ℕ) → t.live n ≡ kernel_close (number (s.m_handle i)) s.live n)

-- While the object lives, its destructor finds the frame undestroyed.
pub destructor-Released :
    (i : ℕ) (s : Frames)
    → s.alive i ≡ true
    → IsOwned (view s)
    → (t : Frames) × (destructor i s ≡ some t) × Released i s t
unfolding destructor
destructor-Released i s live h = elim (Option-cases (s.m_handle i)) [
  | inl e ↦ (
    record s { m_handle = put s.m_handle i none },
    rw (e, destructor) refl,
    (put-here s.m_handle i none, (λ k a. put-there s.m_handle i k none a), refl, (λ n. rw e refl)),
  )
  | inr (n, e) ↦
      let held = h.opens i n (live, ap number e) in
      (
        record s { m_handle = put s.m_handle i none; live = put s.live n false },
        rw (e, destructor, held) refl,
        (
          put-here s.m_handle i none,
          (λ k a. put-there s.m_handle i k none a),
          refl,
          (λ m. rw e refl),
        ),
      )
]

-- `i` holds nothing afterwards, and what it held has been destroyed.
pub released-IsOwned :
    (i : ℕ) (s t : Frames)
    → s.alive i ≡ true
    → ((n : ℕ) → ¬ Holds (view t) i n)
    → ((k : ℕ) → k ≢ i → (t.m_handle k ≡ s.m_handle k) × (t.alive k ≡ s.alive k))
    → ((n : ℕ) → t.live n ≡ kernel_close (number (s.m_handle i)) s.live n)
    → IsOwned (view s)
    → IsOwned (view t)
released-IsOwned i s t live gone same closed h =
    released i (view s) (view t)
      (λ k n a.
        let (hs, as_before) = same k a in
        (
          (λ x. (sym as_before ∙ x.0, ap number (sym hs) ∙ x.1)),
          (λ x. (as_before ∙ x.0, ap number hs ∙ x.1)),
        ))
      gone
      (λ n. (
        (λ o. (closed_live i (view s) live n).0 (sym (closed n) ∙ o)),
        (λ o. closed n ∙ (closed_live i (view s) live n).1 o),
      ))
      h

-- `i` holds afterwards what `j` held, and `j` nothing.
pub handed-IsOwned :
    (i j : ℕ) (s t : Frames)
    → ((n : ℕ) → ¬ Holds (view s) i n)
    → s.alive j ≡ true
    → t.alive i ≡ true
    → (t.m_handle i ≡ s.m_handle j) × (t.m_handle j ≡ none)
    → ((k : ℕ) → k ≢ i → k ≢ j → (t.m_handle k ≡ s.m_handle k) × (t.alive k ≡ s.alive k))
    → ((n : ℕ) → t.live n ≡ s.live n)
    → IsOwned (view s)
    → IsOwned (view t)
handed-IsOwned i j s t empty other here (got, left) same table h =
    handed i j (view s) (view t) empty
      (λ n. ((λ x. (other, ap number (sym got) ∙ x.1)), (λ x. (here, ap number got ∙ x.1))))
      (λ n x. cc (x.1, ap number left))
      (λ k n a b.
        let (hs, as_before) = same k a b in
        (
          (λ x. (sym as_before ∙ x.0, ap number (sym hs) ∙ x.1)),
          (λ x. (as_before ∙ x.0, ap number hs ∙ x.1)),
        ))
      table h

same_view-IsOwned :
    (p q : Process)
    → ((k : ℕ) → p.fd k ≡ q.fd k)
    → ((k : ℕ) → p.alive k ≡ q.alive k)
    → ((n : ℕ) → p.is_open n ≡ q.is_open n)
    → IsOwned p
    → IsOwned q
same_view-IsOwned p q f a o h =
    let same : p ≡ q = λ t. record { fd = λ k. f k t; alive = λ k. a k t; is_open = λ n. o n t } in
    subst (λ r. IsOwned r) same h

pub make-IsOwned :
    (i n : ℕ) (s : Frames)
    → s.alive i ≡ false
    → s.live n ≡ false
    → IsOwned (view s)
    → IsOwned (view (make i n s))
make-IsOwned i n s dead free h =
    same_view-IsOwned (Descriptor.construct_from i n (view s)) (view (make i n s))
      (λ k. elim (Bool-cases (k == i)) [ inl e ↦ rw e refl | inr e ↦ rw e refl ]) (λ k. refl)
      (λ m. refl) (construct_from-IsOwned i n (view s) (λ m x. cc (x.0, dead)) free h)

pub move_construct-IsOwned :
    (i j : ℕ) (s : Frames)
    → s.alive i ≡ false
    → s.alive j ≡ true
    → IsOwned (view s)
    → IsOwned (view (move_construct i j s))
move_construct-IsOwned i j s dead other h =
    let apart : i ≢ j = λ e. cc (ap s.alive e, dead, other) in
    let after = put s.m_handle i (s.m_handle j) in
    handed-IsOwned i j s (move_construct i j s) (λ n x. cc (x.0, dead)) other
      (put-here s.alive i true)
      (put-there after j i none apart ∙ put-here s.m_handle i (s.m_handle j), put-here after j none)
      (λ k a b. (
        put-there after j k none b ∙ put-there s.m_handle i k (s.m_handle j) a,
        put-there s.alive i k true a,
      ))
      (λ n. refl) h
