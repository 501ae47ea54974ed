-- ===== src/Filter/Injection/References.antt =====
-- The injection thread and the references of the socket objects.
use mac_osx_network_sockets.Base.{
  ℕ, ◌≡◌, refl, subst, fun_ext, List, [], ◌∷◌, arith, inl, inr, Bool-cases,
}
use mac_osx_network_sockets.Packet.{data_all}
use mac_osx_network_sockets.Filter.{Environment, Filter}
use mac_osx_network_sockets.Filter.References.{Counted, bump}
use mac_osx_network_sockets.Filter.Close.Valid.{Sound}
use mac_osx_network_sockets.Filter.Close.References.{reinject_socket-Counted}
use mac_osx_network_sockets.Filter.Delivery.References.{deliver_waiting-Counted}
use mac_osx_network_sockets.Filter.Service.References.{release_object-Counted}
use mac_osx_network_sockets.Filter.Life.References.{retain_object-Counted}
use mac_osx_network_sockets.Filter.Injection.{
  is_empty, select_sockets, reinject_sockets, injection_round,
}
use mac_osx_network_sockets.Filter.Injection.Valid.{select_sockets-Sound, reinject_sockets-Sound}

-- The references that the local list of the thread has taken.
taken_all : List ℕ → (ℕ → ℕ) → ℕ → ℕ
taken_all [] x = x
taken_all (o ∷ os) x = bump o (taken_all os x)

taken_all-bump :
    (os : List ℕ) (o : ℕ) (x : ℕ → ℕ) (i : ℕ)
    → taken_all os (bump o x) i ≡ bump o (taken_all os x) i
unfolding taken_all
taken_all-bump [] o x i = refl
taken_all-bump (p ∷ os) o x i = ground (arith, taken_all-bump os o x i)

select_sockets-Counted :
    (x : ℕ → ℕ) (os : List ℕ) (f : Filter)
    → Counted x f
    → let (ls, g) = select_sockets os f in Counted (taken_all ls x) g
unfolding select_sockets taken_all
select_sockets-Counted x [] f c = c
select_sockets-Counted x (o ∷ os) f c = elim (Bool-cases (is_empty (f.objects o).pending_queue)) [
  | inl e ↦ rw e (select_sockets-Counted x os f c)
  | inr e ↦ rw e (
      let (ls, g) = select_sockets os _ in
      subst (λ y. Counted y g) (fun_ext (taken_all-bump ls o x))
        (select_sockets-Counted (bump o x) os _ (retain_object-Counted x o f c)))
]

reinject_sockets-Counted :
    (x : ℕ → ℕ) (env : Environment) (os : List ℕ) (f : Filter)
    → Counted (taken_all os x) f
    → Counted x (reinject_sockets env os f)
unfolding reinject_sockets taken_all
reinject_sockets-Counted x env [] f c = c
reinject_sockets-Counted x env (o ∷ os) f c = reinject_sockets-Counted x env os _ (
    release_object-Counted (taken_all os x) o _
      (reinject_socket-Counted (bump o (taken_all os x)) env data_all o f c))

pub injection_round-Counted :
    (x : ℕ → ℕ) (env : Environment) (f : Filter)
    → Sound f
    → Counted x f
    → Counted x (injection_round env f)
unfolding injection_round
injection_round-Counted x env f s c =
    let (os, g) = select_sockets f.sockets_list f in
    let (v, h) = reinject_sockets-Sound env os g (select_sockets-Sound f.sockets_list f s) in
    deliver_waiting-Counted env x _ h.listed
      (reinject_sockets-Counted x env os g (select_sockets-Counted x f.sockets_list f c))
