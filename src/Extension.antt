-- ===== src/Extension.antt =====
-- The start and the stop of the extension: NKE/NetworkKernelExtension/NetworkKernelExtension.cpp,
-- `startFilter` and `stopFilter` of NkeSocketFilter.cpp, and `InitSocketObjectsSubsystem` of
-- NkeSocketObject.cpp. What the kernel answers is a parameter.
pub mod Threads
pub mod Life
use mac_osx_network_sockets.Base.{
  ℕ, ◌+◌, ◌-◌, Bool, true, false, Option, none, some, List, [], ◌==◌, if◌then◌else◌, update,
}
use mac_osx_network_sockets.Pool.{enomem}

-- `EBUSY` and `EPERM`
abbrev pub ebusy : ℕ
ebusy = 16

abbrev pub eperm : ℕ
eperm = 1

-- The answers of the kernel: whether an allocation succeeds, or an error code, zero for success.
pub record Kernel : Type 0 where
  pub tag_id_find : ℕ
  pub malloc_tag : Bool
  pub sockets_lock : Bool
  pub report_lock : Bool
  pub thread_start : ℕ
  pub with_default : Bool
  pub register_ipv4 : ℕ
  pub register_ipv6 : ℕ
  pub unregister_ipv4 : ℕ
  pub unregister_ipv6 : ℕ

-- The static members of `NkeSocketObject`, and how many tags and injection threads there are.
pub record Subsystem : Type 0 where
  pub initialized : Bool
  pub malloc_tags : ℕ
  pub sockets_list : List ℕ
  pub sockets_list_to_report : List ℕ
  pub has_sockets_lock : Bool
  pub has_report_lock : Bool
  pub injection_threads : ℕ

-- `InitSocketObjectsSubsystem`, from the allocation of the locks on
init_locks : Kernel → Subsystem → ℕ × Subsystem
init_locks k s =
    if k.sockets_lock
    then (if k.report_lock
        then (let t : Subsystem = record s { has_sockets_lock = true; has_report_lock = true } in
            if k.thread_start == 0
            then (0, record t { injection_threads = s.injection_threads + 1; initialized = true })
            else (k.thread_start, t))
        else (enomem, record s { has_sockets_lock = true; has_report_lock = false }))
    else (enomem, record s { has_sockets_lock = false })

-- `InitSocketObjectsSubsystem`
pub init_socket_objects : Kernel → Subsystem → ℕ × Subsystem
unfolding init_locks
init_socket_objects k s =
    if k.malloc_tag
    then (let t : Subsystem = record s { malloc_tags = s.malloc_tags + 1 } in
        if s.initialized
        then (0, t)
        else init_locks k (record t { sockets_list = []; sockets_list_to_report = [] }))
    else (enomem, s)

-- `InitSocketFilterSubsystem`
unfoldable pub init_socket_filter : Kernel → Subsystem → ℕ × Subsystem
unfolding init_socket_objects
init_socket_filter k s = if k.tag_id_find == 0 then init_socket_objects k s else (k.tag_id_find, s)

-- A `NkeSocketFilter`
pub record FilterObject : Type 0 where
  pub references : ℕ
  pub ipv4_is_registered : Bool
  pub ipv6_is_registered : Bool

-- `CurrentFilter`, `gSocketFilter`, the filters, and the number that the next one gets. `published`
-- says that `registerService` has been called.
pub record Extension : Type 0 where
  pub subsystem : Subsystem
  pub current_filter : Option ℕ
  pub socket_filter : Option ℕ
  pub filters : ℕ → FilterObject
  pub next_filter : ℕ
  pub published : Bool

abbrev pub with_filter : ℕ → FilterObject → Extension → Extension
with_filter f o e = record e { filters = update e.filters f o }

-- `OSObject::retain` and `OSObject::release`
abbrev pub retain_filter : ℕ → Extension → Extension
retain_filter f e =
    with_filter f (record (e.filters f) { references = (e.filters f).references + 1 }) e

abbrev pub release_filter : ℕ → Extension → Extension
release_filter f e =
    with_filter f (record (e.filters f) { references = (e.filters f).references - 1 }) e

abbrev pub is_current_filter : ℕ → Option ℕ → Bool
is_current_filter f none = false
is_current_filter f (some g) = f == g

abbrev pub is_none : Option ℕ → Bool
is_none none = true
is_none (some f) = false

-- The two registrations of `startFilter`; the flags stay set if they are.
abbrev register_filters : Kernel → FilterObject → FilterObject
register_filters k o = record o {
  ipv4_is_registered = if k.register_ipv4 == 0 then true else o.ipv4_is_registered;
  ipv6_is_registered = if k.register_ipv6 == 0 then true else o.ipv6_is_registered;
}

-- `startFilter`. The status of the first registration is overwritten.
pub start_filter : Kernel → ℕ → Extension → ℕ × Extension
start_filter k f e =
    if is_none e.current_filter
    then (let r : Extension = retain_filter f (record e { current_filter = some f }) in
        (k.register_ipv6, with_filter f (register_filters k (r.filters f)) r))
    else (ebusy, e)

-- `stopFilter`, from the second unregistration on
stop_ipv6 : Kernel → ℕ → Extension → ℕ × Extension
stop_ipv6 k f e =
    let gone : Extension =
      release_filter f (with_filter f (record (e.filters f) { ipv6_is_registered = false }) e) in
    if (e.filters f).ipv6_is_registered
    then (if k.unregister_ipv6 == 0
        then (0, record gone { current_filter = none })
        else (k.unregister_ipv6, e))
    else (0, record (release_filter f e) { current_filter = none })

-- `stopFilter`
pub stop_filter : Kernel → ℕ → Extension → ℕ × Extension
unfolding stop_ipv6
stop_filter k f e =
    if is_current_filter f e.current_filter
    then (if (e.filters f).ipv4_is_registered
        then (if k.unregister_ipv4 == 0
            then stop_ipv6 k f
                (with_filter f (record (e.filters f) { ipv4_is_registered = false }) e)
            else (k.unregister_ipv4, e))
        else stop_ipv6 k f e)
    else (eperm, e)

-- `NetworkKernelExtension::start`. The status of `startFilter` is not read.
pub start : Kernel → Extension → Bool × Extension
unfolding init_socket_filter start_filter
start k e =
    let (error, subsystem) = init_socket_filter k e.subsystem in
    let t : Extension = record e { subsystem = subsystem } in
    if error == 0
    then (if k.with_default
        then (let f = e.next_filter in
            let o : FilterObject = record {
              references = 1;
              ipv4_is_registered = false;
              ipv6_is_registered = false;
            } in
            let u : Extension = record (with_filter f o t) {
              socket_filter = some f;
              next_filter = f + 1;
            } in
            (true, record ((start_filter k f u).1) { published = true }))
        else (false, record t { socket_filter = none }))
    else (false, t)

-- `NetworkKernelExtension::stop`. Nor is the status of `stopFilter`.
pub stop : Kernel → Extension → Extension
unfolding stop_filter
stop k e = elim e.socket_filter [
  | none ↦ e
  | some f ↦ record (release_filter f (stop_filter k f e).1) { socket_filter = none }
]
