-- ===== src/Pool/Activities/Alone.antt =====
-- Five steps of one activity, with none of another between them, are a call of `acquire` or `release`.
-- With other steps between them, two activities can come to hold the same buffer.
use mac_osx_network_sockets.Base.{
  ℕ, ◌<◌, ◌≡◌, refl, ap, subst, ◌∙◌, fun_ext, false, List, [], ◌∷◌, ◌++◌, arith, ◌==◌, ==-self,
  update, lt→ltb, Option,
}
use mac_osx_network_sockets.Pool.{Pool, buffers_number, uint8_max, acquire, release}
use mac_osx_network_sockets.Pool.FreeList.{IsFreeList, acquire-head, release-free}
use mac_osx_network_sockets.Pool.Activities.{
  Place, outside, acquiring, has_head, has_next, taken, holding, releasing, has_seen, linked,
  has_link, advance, Activities, start, moved, step, run,
}

update-update :
    {A : Type 0} (f : ℕ → A) (i : ℕ) (a b : A) → update (update f i a) i b ≡ update f i b
update-update f i a b = fun_ext λ j. ground arith

step-moved :
    (i : ℕ) (s : Activities) (q : Place) (p : Pool)
    → step i (moved s i (q, p)) ≡ moved s i (advance q p)
unfolding step
step-moved i s q p = rw (==-self i, update-update s.places i q (advance q p).0) refl

step-at :
    (i : ℕ) (s : Activities) (q : Place) → s.places i ≡ q → step i s ≡ moved s i (advance q s.pool)
unfolding step
step-at i s q e = rw e refl

abbrev pub five : ℕ → List ℕ
five i = i ∷ i ∷ i ∷ i ∷ i ∷ []

-- The pool when the free buffer `x` has been taken off the list, and when `b` has been put on it.
abbrev pub popped : ℕ → Pool → Pool
popped x p = record p {
  free_buffers = update p.free_buffers x uint8_max;
  free_buffers_head = p.free_buffers x;
}

abbrev pub pushed : ℕ → Pool → Pool
pushed b p = record p {
  free_buffers = update p.free_buffers b p.free_buffers_head;
  free_buffers_head = b;
}

run_head :
    (i : ℕ) (s : Activities)
    → s.places i ≡ outside
    → (s.pool.free_buffers_head == uint8_max) ≡ false
    → let h = s.pool.free_buffers_head in run (five i) s ≡ moved s i (holding h, popped h s.pool)
unfolding run advance
run_head i s e some_free =
    let h = s.pool.free_buffers_head in
    let n = s.pool.free_buffers h in
    rw
      (
        step-at i s outside e,
        step-moved i s acquiring s.pool,
        some_free,
        step-moved i s (has_head h) s.pool,
        step-moved i s (has_next h n) s.pool,
        ==-self h,
        step-moved i s (taken h) (record s.pool { free_buffers_head = n }),
      )
      refl

run_acquire :
    (i x : ℕ) (s : Activities)
    → s.places i ≡ outside
    → s.pool.free_buffers_head ≡ x
    → x < buffers_number
    → run (five i) s ≡ moved s i (holding x, popped x s.pool)
run_acquire i x s e top lt =
    subst (λ y. run (five i) s ≡ moved s i (holding y, popped y s.pool)) top
      (run_head i s e (ground arith))

run_release :
    (i b : ℕ) (s : Activities)
    → s.places i ≡ holding b
    → b < buffers_number
    → s.pool.free_buffers b ≡ uint8_max
    → run (five i) s ≡ moved s i (outside, pushed b s.pool)
unfolding run advance
run_release i b s e lt used =
    let h = s.pool.free_buffers_head in
    let p : Pool = record s.pool { free_buffers = update s.pool.free_buffers b h } in
    rw
      (
        step-at i s (holding b) e,
        lt→ltb b buffers_number lt,
        used,
        step-moved i s (releasing b) s.pool,
        step-moved i s (has_seen b h) s.pool,
        step-moved i s (linked b) p,
        ==-self b,
        step-moved i s (has_link b h) p,
        ==-self h,
      )
      refl

pub run-append : (is js : List ℕ) (s : Activities) → run (is ++ js) s ≡ run js (run is s)
unfolding run
run-append [] js s = refl
run-append (i ∷ is) js s = run-append is js (step i s)

-- With no step of another activity between them, five steps of an activity are a call of
-- `acquireSocketDataBufferForIO` that takes the first free buffer, and the next five are a call of
-- `releaseSocketDataBufferFromIO` that gives it back.
pub run_alone_lem :
    (i x : ℕ) (xs : List ℕ) (s : Activities)
    → s.places i ≡ outside
    → IsFreeList s.pool (x ∷ xs)
    → (run (five i) s ≡ moved s i (holding x, (acquire s.pool).1))
      × (run (five i ++ five i) s ≡ moved s i (outside, release x (acquire s.pool).1))
run_alone_lem i x xs s e f =
    let lt = f.in_range.0 in
    let top = f.links.0 in
    let q = popped x s.pool in
    let free : q.free_buffers x ≡ uint8_max = ground arith in
    let held : update s.places i (holding x) i ≡ holding x = ground arith in
    let acquired : (acquire s.pool).1 ≡ q =
      ap (λ (t : Option ℕ × Pool). t.1) (acquire-head s.pool (ground arith))
      ∙ ap (λ y. popped y s.pool) top in
    rw acquired (
      run_acquire i x s e top lt,
      run-append (five i) (five i) s
          ∙ rw
              (
                run_acquire i x s e top lt,
                run_release i x (moved s i (holding x, q)) held lt free,
                release-free x q lt free,
                update-update s.places i (holding x) outside,
              )
              refl,
    )

-- The activities of `aba`: 0 has read the top and what follows it; 1 takes the top and 2 what
-- follows it; 1 gives the top back; the compare-and-swap of 0 succeeds, and 3 takes a buffer.
abbrev pub aba : List ℕ
aba = (0 ∷ 0 ∷ 0 ∷ []) ++ five 1 ++ five 2 ++ five 1 ++ (0 ∷ []) ++ five 3

module _ (p : Pool) (a b : ℕ) (xs : List ℕ) (f : IsFreeList p (a ∷ b ∷ xs)) where
  abbrev s0 : Activities
  s0 = moved (start p) 0 (has_next a b, p)

  abbrev s1 : Activities
  s1 = moved s0 1 (holding a, popped a p)

  abbrev s2 : Activities
  s2 = moved s1 2 (holding b, popped b s1.pool)

  abbrev s3 : Activities
  s3 = moved s2 1 (outside, pushed a s2.pool)

  abbrev s4 : Activities
  s4 = moved s3 0 (taken a, record s3.pool { free_buffers_head = b })

  abbrev s5 : Activities
  s5 = moved s4 3 (holding b, popped b s4.pool)

  read_top : run (0 ∷ 0 ∷ 0 ∷ []) (start p) ≡ s0
  unfolding run advance
  read_top =
      let h = p.free_buffers_head in
      let n = p.free_buffers h in
      let some_free : (h == uint8_max) ≡ false = ground arith in
      let same : has_next h n ≡ has_next a b = ground arith in
      rw
        (
          step-at 0 (start p) outside refl,
          step-moved 0 (start p) acquiring p,
          some_free,
          step-moved 0 (start p) (has_head h) p,
        )
        (ap (λ q. moved (start p) 0 (q, p)) same)

  swap_top : run (0 ∷ []) s3 ≡ s4
  unfolding run advance
  swap_top = rw (step-at 0 s3 (has_next a b) refl, ==-self a) refl

  run-aba : run aba (start p) ≡ s5
  run-aba =
      run-append (0 ∷ 0 ∷ 0 ∷ []) _ (start p)
      ∙ rw
          (
            read_top,
            run-append (five 1) (five 2 ++ five 1 ++ (0 ∷ []) ++ five 3) s0,
            run_acquire 1 a s0 refl f.links.0 f.in_range.0,
            run-append (five 2) (five 1 ++ (0 ∷ []) ++ five 3) s1,
            run_acquire 2 b s1 refl f.links.1.0 f.in_range.1.0,
            run-append (five 1) ((0 ∷ []) ++ five 3) s2,
            run_release 1 a s2 refl f.in_range.0 (ground arith),
            run-append (0 ∷ []) (five 3) s3,
            swap_top,
            run_acquire 3 b s4 refl refl f.in_range.1.0,
          )
          refl

-- From any pool with two free buffers at least, the steps `aba` of four activities end with two
-- activities that hold the same buffer: the comments in the two functions, which deny an ABA
-- problem, are wrong.
pub aba_shares_buffer :
    (p : Pool) (a b : ℕ) (xs : List ℕ)
    → IsFreeList p (a ∷ b ∷ xs)
    → let s = run aba (start p) in (s.places 2 ≡ holding b) × (s.places 3 ≡ holding b)
aba_shares_buffer p a b xs f = rw (run-aba p a b xs f) (refl, refl)
