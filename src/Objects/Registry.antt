-- ===== src/Objects/Registry.antt =====
-- The calls that change the path handlers of a connection (dbus-cxx/connection.cpp), the registry that
-- these stand for, and its part on threads.
use dbus_cxx.Common.{
  ℕ, ◌≡◌, refl, ap, ◌∙◌, List, [], ◌∷◌, Option, some, none, Bool, Bool-cases, inl, inr, true, false,
  if◌then◌else◌, ◌==◌, ==_iff, sym, same_text, find_text,
}
use dbus_cxx.Objects.Paths.{
  PathHandlingEntry, Paths, RegistrationStatus, success, failed_path_in_use, register_path,
  change_object_calling_thread, unregister_object, remove_invalid_threaddispatchers, kept_entries,
  alive_only, is_invalid_thread,
}
use dbus_cxx.Objects.Ordered.{same_text-eq, AreAbove, IsSorted, find_text-AreAbove}

-- The calls that change the path handlers; `expire` is the removal where the dispatcher of a
-- thread is not there.
pub data Call : Type 0 where
  register change_thread :
      (in_dispatcher : Bool) → (thread : ℕ) → (path : List ℕ) → (object : ℕ) → Call
  unregister : (path : List ℕ) → Call
  expire : (thread : ℕ) → Call

abbrev pub is_success : RegistrationStatus → Bool
is_success success = true
is_success failed_path_in_use = false

abbrev pub perform : Call → Paths → Paths × Bool
perform (register d t path object) c =
    let r = register_path d t path object c in (r.0, is_success r.1)
perform (change_thread d t path object) c = change_object_calling_thread d t path c
perform (unregister path) c = unregister_object path c
perform (expire t) c = (remove_invalid_threaddispatchers t c, true)

abbrev pub perform_all : List Call → Paths → Paths × List Bool
perform_all [] c = (c, [])
perform_all (o ∷ os) c =
    let one = perform o c in let more = perform_all os one.0 in (more.0, one.1 ∷ more.1)

-- What a connection promises: an entry for each path that has one, and for each thread that is known
-- whether its dispatcher is there.
pub record Registry : Type 0 where
  pub entry_of : List ℕ → Option PathHandlingEntry
  pub dispatcher_of : ℕ → Option Bool
  pub dispatching_thread : ℕ

abbrev pub updated : List ℕ → Option PathHandlingEntry → Registry → Registry
updated path e s = record s { entry_of = λ q. if same_text path q then e else s.entry_of q }

abbrev pub entry_for : Bool → ℕ → ℕ → Registry → PathHandlingEntry
entry_for d t object s = record {
  handler = object;
  handling_thread = if d then s.dispatching_thread else t;
}

-- Whether the removal for `t` is to take the objects of a thread, of which the dispatcher is this: those
-- of a thread whose dispatcher has expired, and those of `t` where it is not known.
abbrev pub is_lost : (t n : ℕ) → Option Bool → Bool
is_lost t n (some true) = false
is_lost t n (some false) = true
is_lost t n none = t == n

-- Only the dispatchers that are there stay known.
abbrev pub still_there : Option Bool → Option Bool
still_there (some true) = some true
still_there (some false) = none
still_there none = none

abbrev kept_entry : (ℕ → Bool) → Option PathHandlingEntry → Option PathHandlingEntry
kept_entry lost none = none
kept_entry lost (some e) = if lost e.handling_thread then none else some e

abbrev pub registered :
    Bool → ℕ → List ℕ → ℕ → Registry → Option PathHandlingEntry → Registry × Bool
registered d t path object s (some _) = (s, false)
registered d t path object s none = (updated path (some (entry_for d t object s)) s, true)

abbrev pub changed : Bool → ℕ → List ℕ → Registry → Option PathHandlingEntry → Registry × Bool
changed d t path s none = (s, false)
changed d t path s (some e) = (updated path (some (entry_for d t e.handler s)) s, true)

abbrev pub unregistered : List ℕ → Registry → Option PathHandlingEntry → Registry × Bool
unregistered path s none = (s, false)
unregistered path s (some _) = (updated path none s, true)

abbrev pub specified : Call → Registry → Registry × Bool
specified (register d t path object) s = registered d t path object s (s.entry_of path)
specified (change_thread d t path object) s = changed d t path s (s.entry_of path)
specified (unregister path) s = unregistered path s (s.entry_of path)
specified (expire t) s = (
  record s {
    entry_of = λ q. kept_entry (λ n. is_lost t n (s.dispatcher_of n)) (s.entry_of q);
    dispatcher_of = λ n. still_there (s.dispatcher_of n);
  },
  true,
)

abbrev pub specified_all : List Call → Registry → Registry × List Bool
specified_all [] s = (s, [])
specified_all (o ∷ os) s =
    let one = specified o s in let more = specified_all os one.0 in (more.0, one.1 ∷ more.1)

-- The dispatcher of a thread in the map.
abbrev dispatcher_in : ℕ → List (ℕ × Bool) → Option Bool
dispatcher_in n [] = none
dispatcher_in n ((k, alive) ∷ m) =
    let more = dispatcher_in n m in if k == n then some alive else more

-- A map has each thread once.
abbrev IsThreadMap : List (ℕ × Bool) → Type 0
IsThreadMap [] = Unit
IsThreadMap ((k, alive) ∷ m) = (dispatcher_in k m ≡ none) × IsThreadMap m

-- The keys are in order, and each path has the entry that is specified, each thread the dispatcher.
abbrev pub Implements : Paths → Registry → Type 0
Implements c s =
    IsSorted c.path_handler
    × ((path : List ℕ) → find_text path c.path_handler ≡ s.entry_of path)
    × IsThreadMap c.thread_dispatchers
    × ((n : ℕ) → dispatcher_in n c.thread_dispatchers ≡ s.dispatcher_of n)
    × (c.dispatching_thread ≡ s.dispatching_thread)

pub dispatcher_in-alive_only :
    (n : ℕ) (m : List (ℕ × Bool))
    → IsThreadMap m
    → dispatcher_in n (alive_only m) ≡ still_there (dispatcher_in n m)
dispatcher_in-alive_only n [] once = refl
dispatcher_in-alive_only n ((k, true) ∷ m) (other, once) = elim (Bool-cases (k == n)) [
  | inl e ↦ rw e refl
  | inr e ↦ rw e (dispatcher_in-alive_only n m once)
]
dispatcher_in-alive_only n ((k, false) ∷ m) (other, once) = elim (Bool-cases (k == n)) [
  | inl e ↦
      let gone : dispatcher_in n m ≡ none =
        ap (λ (i : ℕ). dispatcher_in i m) (sym ((==_iff k n).0 e)) ∙ other in
      rw e (dispatcher_in-alive_only n m once ∙ ap still_there gone)
  | inr e ↦ rw e (dispatcher_in-alive_only n m once)
]

pub alive_only-IsThreadMap : (m : List (ℕ × Bool)) → IsThreadMap m → IsThreadMap (alive_only m)
alive_only-IsThreadMap [] once = tt
alive_only-IsThreadMap ((k, true) ∷ m) (other, once) =
    (dispatcher_in-alive_only k m once ∙ ap still_there other, alive_only-IsThreadMap m once)
alive_only-IsThreadMap ((k, false) ∷ m) (other, once) = alive_only-IsThreadMap m once

pub is_invalid_thread-is_lost :
    (t n : ℕ) (m : List (ℕ × Bool)) → is_invalid_thread t m n ≡ is_lost t n (dispatcher_in n m)
is_invalid_thread-is_lost t n [] = refl
is_invalid_thread-is_lost t n ((k, alive) ∷ m) = elim (Bool-cases (k == n)) [
  | inl e ↦ rw e (elim alive [ true ↦ refl | false ↦ refl ])
  | inr e ↦ rw e (is_invalid_thread-is_lost t n m)
]

pub kept_entry_alike :
    (f g : ℕ → Bool) (o : Option PathHandlingEntry)
    → ((n : ℕ) → f n ≡ g n)
    → kept_entry f o ≡ kept_entry g o
kept_entry_alike f g none h = refl
kept_entry_alike f g (some e) h = rw (h e.handling_thread)

abbrev pub Agrees : Paths × Bool → Registry × Bool → Type 0
Agrees p q = Implements p.0 q.0 × (p.1 ≡ q.1)

AreAbove-kept_entries :
    (invalid : ℕ → Bool) (k : List ℕ) (m : List (List ℕ × PathHandlingEntry))
    → AreAbove k m
    → AreAbove k (kept_entries invalid m)
AreAbove-kept_entries invalid k [] above = tt
AreAbove-kept_entries invalid k ((p, e) ∷ m) (first, above) =
    elim (Bool-cases (invalid e.handling_thread)) [
      | inl h ↦ rw h (AreAbove-kept_entries invalid k m above)
      | inr h ↦ rw h (first, AreAbove-kept_entries invalid k m above)
    ]

pub kept_entries-IsSorted :
    (invalid : ℕ → Bool) (m : List (List ℕ × PathHandlingEntry))
    → IsSorted m
    → IsSorted (kept_entries invalid m)
kept_entries-IsSorted invalid [] sorted = tt
kept_entries-IsSorted invalid ((p, e) ∷ m) (above, sorted) =
    elim (Bool-cases (invalid e.handling_thread)) [
      | inl h ↦ rw h (kept_entries-IsSorted invalid m sorted)
      | inr h ↦
          rw h (AreAbove-kept_entries invalid p m above, kept_entries-IsSorted invalid m sorted)
    ]

pub find_text-kept_entries :
    (invalid : ℕ → Bool) (path : List ℕ) (m : List (List ℕ × PathHandlingEntry))
    → IsSorted m
    → find_text path (kept_entries invalid m) ≡ kept_entry invalid (find_text path m)
find_text-kept_entries invalid path [] sorted = refl
find_text-kept_entries invalid path ((p, e) ∷ m) (above, sorted) =
    let more = find_text-kept_entries invalid path m sorted in
    elim (Bool-cases (same_text p path)) [
      | inr d ↦ elim (Bool-cases (invalid e.handling_thread)) [
        | inl h ↦ rw (h, d, more) refl
        | inr h ↦ rw (h, d, more) refl
      ]
      | inl d ↦ elim (Bool-cases (invalid e.handling_thread)) [
        | inl h ↦
            let absent : find_text path m ≡ none =
              find_text-AreAbove path m (rw (same_text-eq p path d) at above) in
            rw (h, d, h, more, absent) refl
        | inr h ↦ rw (h, d, h) refl
      ]
    ]
