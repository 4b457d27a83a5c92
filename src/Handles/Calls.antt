-- ===== src/Handles/Calls.antt =====
-- Each call on an object that holds a coroutine frame destroys no frame twice and keeps the owners.
use libcoio.Base.{
  put, put-here, put-there, ℕ, ◌≡◌, refl, sym, ap, ◌∙◌, ◌≢◌, inl, inr, true, false, Option, none,
  some, ◌==◌, ==_iff, Bool-cases, Option-cases, pos,
}
use libcoio.Descriptor.{kernel_close}
use libcoio.Descriptor.Owners.{Holds, IsOwned}
use libcoio.Handles.{
  Frames, destructor, generator_destructor, end_life, take_over, same_handle, future_assign,
  task_assign, swap_handles, swap_from,
}
use libcoio.Handles.Owners.{
  view, number, Released, destructor-Released, released-IsOwned, handed-IsOwned,
}

-- A call that destroys no frame twice, and afterwards each frame has its owner.
abbrev pub GoesWell : Option Frames → Type 0
GoesWell o = (t : Frames) × (o ≡ some t) × IsOwned (view t)

pub take_over-IsOwned :
    (i j : ℕ) (s : Frames)
    → i ≢ j
    → ((n : ℕ) → ¬ Holds (view s) i n)
    → s.alive i ≡ true
    → s.alive j ≡ true
    → IsOwned (view s)
    → IsOwned (view (take_over i j s))
take_over-IsOwned i j s apart empty live other h =
    let after = put s.m_handle i (s.m_handle j) in
    handed-IsOwned i j s (take_over i j s) empty other live
      (put-there after j i none apart ∙ put-here s.m_handle i (s.m_handle j), put-here after j none)
      (λ k a b. (put-there after j k none b ∙ put-there s.m_handle i k (s.m_handle j) a, refl))
      (λ n. refl) h

pub swap_handles-IsOwned :
    (i j : ℕ) (s : Frames)
    → i ≢ j
    → s.m_handle i ≡ none
    → s.alive i ≡ true
    → s.alive j ≡ true
    → IsOwned (view s)
    → IsOwned (view (swap_handles i j s))
swap_handles-IsOwned i j s apart gone live other h =
    let after = put s.m_handle j (s.m_handle i) in
    handed-IsOwned i j s (swap_handles i j s) (λ n x. cc (x.1, ap number gone)) other live
      (
        put-here after i (s.m_handle j),
        put-there after i j (s.m_handle j) (λ e. apart (sym e))
            ∙ put-here s.m_handle j (s.m_handle i)
            ∙ gone,
      )
      (λ k a b.
        (put-there after i k (s.m_handle j) a ∙ put-there s.m_handle j k (s.m_handle i) b, refl))
      (λ n. refl) h

-- After the destructor within an assignment.
destructor-IsOwned :
    (i : ℕ) (s t : Frames) → s.alive i ≡ true → Released i s t → IsOwned (view s) → IsOwned (view t)
destructor-IsOwned i s t live (gone, same, lives, closed) h =
    released-IsOwned i s t live (λ n x. cc (x.1, ap number gone))
      (λ k a. (same k a, ap (λ f. f k) lives)) closed h

-- Two objects with the same handle have none.
same_handle-none :
    (i j : ℕ) (s : Frames)
    → i ≢ j
    → s.alive i ≡ true
    → s.alive j ≡ true
    → IsOwned (view s)
    → same_handle (s.m_handle j) (s.m_handle i) ≡ true
    → (n : ℕ) → ¬ Holds (view s) i n
same_handle-none i j s apart live other h same n (a, e) = elim (Option-cases (s.m_handle i)) [
  | inl x ↦ cc (e, ap number x)
  | inr (m, x) ↦ elim (Option-cases (s.m_handle j)) [
    | inl y ↦ let z : false ≡ true = rw (x, y) at same in cc (z)
    | inr (l, y) ↦
        let z : (l == m) ≡ true = rw (x, y) at same in
        apart (h.unique i j m (live, ap number x) (other, ap number y ∙ ap pos ((==_iff l m).0 z)))
  ]
]

pub future_assign-GoesWell :
    (i j : ℕ) (s : Frames)
    → i ≢ j
    → s.alive i ≡ true
    → s.alive j ≡ true
    → IsOwned (view s)
    → GoesWell (future_assign i j s)
unfolding future_assign
future_assign-GoesWell i j s apart live other h =
    elim (Bool-cases (same_handle (s.m_handle j) (s.m_handle i))) [
      | inl e ↦ (
        take_over i j s,
        rw (e, future_assign) refl,
        take_over-IsOwned i j s apart (same_handle-none i j s apart live other h e) live other h,
      )
      | inr e ↦
          let (t, d, r) = destructor-Released i s live h in
          (
            take_over i j t,
            rw (e, d, future_assign) refl,
            take_over-IsOwned i j t apart (λ n x. cc (x.1, ap number r.0))
                (ap (λ f. f i) r.2 ∙ live) (ap (λ f. f j) r.2 ∙ other)
                (destructor-IsOwned i s t live r h),
          )
    ]

pub task_assign-GoesWell :
    (i j : ℕ) (s : Frames)
    → i ≢ j
    → s.alive i ≡ true
    → s.alive j ≡ true
    → IsOwned (view s)
    → GoesWell (task_assign i j s)
unfolding task_assign
task_assign-GoesWell i j s apart live other h = elim (Option-cases (s.m_handle i)) [
  | inl e ↦ (
    swap_handles i j s,
    (let unheld : (elim (s.m_handle i) [ none ↦ some s | some n ↦ destructor i s ]) ≡ some s =
          rw e refl in
        ap (swap_from i j) unheld),
    swap_handles-IsOwned i j s apart e live other h,
  )
  | inr (n, e) ↦
      let (t, d, r) = destructor-Released i s live h in
      (
        swap_handles i j t,
        rw (e, d, task_assign) refl,
        swap_handles-IsOwned i j t apart r.0 (ap (λ f. f i) r.2 ∙ live) (ap (λ f. f j) r.2 ∙ other)
            (destructor-IsOwned i s t live r h),
      )
]

-- An object whose lifetime ends when its frame has been destroyed.
end_life-IsOwned :
    (i : ℕ) (s t : Frames)
    → s.alive i ≡ true
    → ((k : ℕ) → k ≢ i → t.m_handle k ≡ s.m_handle k)
    → (t.alive ≡ s.alive)
    → ((n : ℕ) → t.live n ≡ kernel_close (number (s.m_handle i)) s.live n)
    → IsOwned (view s)
    → IsOwned (view (record t { alive = put t.alive i false }))
end_life-IsOwned i s t live same lives closed h =
    released-IsOwned i s (record t { alive = put t.alive i false }) live
      (λ n x. cc (x.0, put-here t.alive i false))
      (λ k a. (same k a, put-there t.alive i k false a ∙ ap (λ f. f k) lives)) closed h

pub destroys-GoesWell :
    (i : ℕ) (s : Frames)
    → s.alive i ≡ true
    → IsOwned (view s)
    → GoesWell (end_life i (destructor i s))
destroys-GoesWell i s live h =
    let (t, d, (gone, same, lives, closed)) = destructor-Released i s live h in
    (
      record t { alive = put t.alive i false },
      ap (end_life i) d,
      end_life-IsOwned i s t live same lives closed h,
    )

pub destroys_generator-GoesWell :
    (i : ℕ) (s : Frames)
    → s.alive i ≡ true
    → IsOwned (view s)
    → GoesWell (end_life i (generator_destructor i s))
unfolding generator_destructor
destroys_generator-GoesWell i s live h = elim (Option-cases (s.m_handle i)) [
  | inl e ↦ (
    record s { alive = put s.alive i false },
    rw (e, generator_destructor) refl,
    end_life-IsOwned i s s live (λ k a. refl) refl (λ n. rw e refl) h,
  )
  | inr (n, e) ↦
      let held = h.opens i n (live, ap number e) in
      let t = record s { live = put s.live n false } in
      (
        record t { alive = put t.alive i false },
        rw (e, held, generator_destructor) refl,
        end_life-IsOwned i s t live (λ k a. refl) refl (λ m. rw e refl) h,
      )
]
