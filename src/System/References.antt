-- ===== src/System/References.antt =====
-- The references of the socket objects after any sequence of calls.
use mac_osx_network_sockets.Base.{
  ℕ, ◌≡◌, refl, subst, true, false, Option, none, some, List, [], ◌∷◌, ◌==◌, ==→eq, contains, arith,
  Bool-cases, inl, inr,
}
use mathlib.Core.Option.{some-injective}
use mac_osx_network_sockets.Filter.Life.{remove}
use mac_osx_network_sockets.Filter.Connect.{connect_in-notes, connect_out-notes, bind-notes}
use mac_osx_network_sockets.Filter.Notify.{resume_notify}
use mac_osx_network_sockets.Filter.Notify.Valid.{flt_notify-Sound}
use mac_osx_network_sockets.Filter.{Filter}
use mac_osx_network_sockets.Filter.References.{HasReferences, Counted, bump, change-Counted}
use mac_osx_network_sockets.Filter.Close.Valid.{Sound}
use mac_osx_network_sockets.Filter.Data.References.{flt_data-Counted}
use mac_osx_network_sockets.Filter.Service.References.{taken_by, process_service_response-Counted}
use mac_osx_network_sockets.Filter.Life.References.{flt_attach-Counted, flt_detach-Counted}
use mac_osx_network_sockets.Filter.Notify.References.{flt_notify-Counted, resume_notify-Counted}
use mac_osx_network_sockets.Filter.Injection.References.{injection_round-Counted}
use mac_osx_network_sockets.System.{
  Event, arrives, responds, attaches, detaches, notifies, connects_in, connects_out, binds, injects,
  resumes, System, adjoin, handle, run,
}
use mac_osx_network_sockets.System.Sound.{HasRoom, HaveRoom, handle-Sound}

-- Between two calls no reference is taken.
abbrev pub none_taken : ℕ → ℕ
none_taken o = 0

-- The references that the calls that wait have taken.
abbrev pub held : List ℕ → ℕ → ℕ
held [] = none_taken
held (o ∷ os) = bump o (held os)

held-remove :
    (o : ℕ) (os : List ℕ) (i : ℕ) → contains os o ≡ true → held os i ≡ bump o (held (remove o os)) i
held-remove o [] i h = absurd (ground arith)
held-remove o (x ∷ os) i h = elim (Bool-cases (x == o)) [
  | inl e ↦ rw (e, ==→eq x o e) refl
  | inr e ↦ let ih = held-remove o os i (ground arith) in ground (arith, ih)
]

held-contains : (o : ℕ) (os : List ℕ) → contains os o ≡ false → held os o ≡ 0
held-contains o [] h = refl
held-contains o (x ∷ os) h = ground (arith, held-contains o os)

taken_by-held :
    (waits : Option ℕ) (os : List ℕ) (f : Filter)
    → Counted (taken_by waits (held os)) f
    → Counted (held (adjoin waits os)) f
taken_by-held none os f c = c
taken_by-held (some o) os f c = c

-- The references are those of the lists and of the calls that wait.
abbrev pub AreCounted : System → Type 0
AreCounted s = Counted (held s.waiting) s.filter

handle-Counted :
    (e : Event) (s t : System)
    → handle e s ≡ some t
    → HasRoom e s
    → Sound s.filter
    → AreCounted s
    → AreCounted t
unfolding handle
handle-Counted (arrives env kpi a o) s t h room (v, n) c =
    subst AreCounted (some-injective _ _ h)
      (flt_data-Counted env (held s.waiting) kpi a o s.filter v n c)
handle-Counted (responds env buffers rs) s t h room (v, n) c =
    subst AreCounted (some-injective _ _ h)
      (process_service_response-Counted env (held s.waiting) buffers rs s.filter n.listed c)
handle-Counted (attaches started b so family) s t h room v c =
    subst AreCounted (some-injective _ _ h) (
      flt_attach-Counted (held s.waiting) started b so family s.filter
        (held-contains b.name s.waiting room.1) c)
handle-Counted (detaches o) s t h room v c =
    subst AreCounted (some-injective _ _ h) (flt_detach-Counted (held s.waiting) o s.filter c)
handle-Counted (notifies env names e how so) s t h room v c =
    let ((waits, g), k, _) = flt_notify-Sound env names e how so s.filter room v in
    let d = flt_notify-Counted (held s.waiting) env names e how so s.filter (waits, g) k c in
    subst AreCounted (some-injective _ _ (rw (handle, k) at h)) (taken_by-held waits s.waiting g d)
handle-Counted (connects_in o from) s t h room v c =
    let (a, k) = connect_in-notes o from s.filter room in
    subst AreCounted (some-injective _ _ (rw (handle, k) at h))
      (change-Counted (held s.waiting) o _ s.filter (refl, refl, refl) c)
handle-Counted (connects_out o to) s t h room v c =
    let (a, k) = connect_out-notes o to s.filter room in
    subst AreCounted (some-injective _ _ (rw (handle, k) at h))
      (change-Counted (held s.waiting) o _ s.filter (refl, refl, refl) c)
handle-Counted (binds o to) s t h room v c =
    let (a, k) = bind-notes o to s.filter room in
    subst AreCounted (some-injective _ _ (rw (handle, k) at h))
      (change-Counted (held s.waiting) o _ s.filter (refl, refl, refl) c)
handle-Counted (injects env) s t h room v c =
    subst AreCounted (some-injective _ _ h)
      (injection_round-Counted (held s.waiting) env s.filter v c)
handle-Counted (resumes o) s t h room v c = elim (Bool-cases (contains s.waiting o)) [
  | inl e ↦
      let os = remove o s.waiting in
      let d : Counted (bump o (held os)) s.filter = record {
        counted = λ i.
            subst (λ n. HasReferences n (s.filter.objects i)) (held-remove o s.waiting i e)
              (c.counted i);
      } in
      let (waits, g) = resume_notify o s.filter in
      subst AreCounted (some-injective _ _ (rw (handle, e) at h))
        (taken_by-held waits os g (resume_notify-Counted (held os) o s.filter d))
  | inr e ↦ subst AreCounted (some-injective _ _ (rw (handle, e) at h)) c
]

-- After any sequence of calls, in any order and whatever the kernel and the client answer in each,
-- there is a state, in which every socket object has as many references as it has flags of
-- `SocketsList` and `SocketsListToReport` set and calls of `FltNotify` wait for it (modulo 2^32). It
-- is so if it was so before, every object was valid and no packet was stranded, with the conditions
-- on the calls under which that remains so: no path of a call keeps a reference that it took, but
-- for the time that it waits, or gives one back twice.
pub run-Counted :
    (es : List Event) (s : System)
    → HaveRoom es (some s)
    → Sound s.filter
    → AreCounted s
    → (t : System) × (run es s ≡ some t) × AreCounted t
unfolding run
run-Counted [] s room v c = (s, refl, c)
run-Counted (e ∷ es) s (now, later) v c =
    let (t, h, w) = handle-Sound e s now v in
    rw (run, h) (run-Counted es t (subst (HaveRoom es) h later) w (handle-Counted e s t h now v c))
