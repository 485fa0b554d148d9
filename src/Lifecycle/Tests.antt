-- ===== src/Lifecycle/Tests.antt =====
-- The ends of a process that holds a request, and its child.
use pecl_eio.Base.{List, ◌+◌, ◌≤◌, arith, false, true, ℕ, ◌≡◌, refl, none, some, [], ◌∷◌, ◌>>=◌}
use pecl_eio.Base.Returns.{Returns}
use pecl_eio.Process.Init.{Initialized}
use pecl_eio.Handles.Resetting.{Reset}
use pecl_eio.Handles.Steps.{here, next}
use pecl_eio.Handles.Tests.{
  lib, lib-Frees, first, first-IsSafe, registered, registered-IsSafe, registered_ready, registering,
}
use pecl_eio.World.{World}
use pecl_eio.Lifecycle.Start.{loaded, Started, startup-Started}
use pecl_eio.Base.Int.{pos}
use pecl_eio.Handles.{handle_dtor}
use pecl_eio.Lifecycle.Constants.{Headers, number}
use pecl_eio.Lifecycle.Types.{ListType, find_type, Numbers, group_descriptor, register_types}
use pecl_eio.Lifecycle.{startup, mshutdown, atfork_child, drop_all, close_handles}
use pecl_eio.Lifecycle.Shutdown.{Closed, PipeGone, mshutdown-Closed, atfork_child-Child}
use pecl_eio.Lifecycle.Leaks.{close_handles-no_leak}
use pecl_eio.Examples.{env, world}

-- A process with another id made the request, with a pipe at the descriptors 5 and 6.
abbrev busy : World
busy = record world {
  store = registered;
  process = record world.process {
    pid = 41;
    fd0 = some 5;
    fd1 = some 6;
    len = 1;
    open_fds = 5 ∷ 6 ∷ [];
  };
}

mshutdown-Closed_example :
    Returns (λ w'. Closed busy.store w'.store × PipeGone busy.process w'.process) (mshutdown busy)
mshutdown-Closed_example = mshutdown-Closed busy registered-IsSafe

atfork_child-Child_example :
    Returns
      (λ w'. Reset busy.store w'.store × Initialized env.os busy.process w'.process)
      (atfork_child env busy)
atfork_child-Child_example = atfork_child-Child env busy registered-IsSafe registered_ready refl

close_handles-no_leak_example :
    Returns
      (λ u. (a : ℕ) → u.handles a ≡ none)
      (drop_all registered.resources registered >>= close_handles)
close_handles-no_leak_example =
    close_handles-no_leak lib lib-Frees first registered first-IsSafe tt (next here registering)

-- The extension is loaded.
abbrev loaded_world : World
loaded_world = record world { store = loaded }

-- An engine that numbers its types upwards, with one type there already.
abbrev new_type : List ListType → ℕ
new_type [] = 0
new_type (t ∷ ts) = let rest = new_type ts in t.id + 1 + rest

new_type-unused : (ts : List ListType) (k : ℕ) → new_type ts ≤ k → find_type k ts ≡ none
new_type-unused [] k h = refl
new_type-unused (t ∷ ts) k h = ground (arith, new_type-unused ts k (omega (arith, h)))

new_type-Numbers : Numbers new_type
new_type-Numbers = record { unused = λ ts. new_type-unused ts (new_type ts) (omega arith) }

abbrev one_type : List ListType
one_type = record { id = 4; name = group_descriptor; dtor = handle_dtor } ∷ []

abbrev headers : Headers
headers = record {
  eio_macro = λ c. pos (number c);
  system_macro = λ c. pos 7;
  has_debug = false;
  has_fsync = true;
}

startup-Started_example :
    Started env headers one_type (startup env headers new_type one_type loaded_world)
startup-Started_example =
    startup-Started env headers new_type new_type-Numbers one_type loaded_world refl

two_types : (startup env headers new_type one_type loaded_world).types.le_eio_req ≡ 11
unfolding startup register_types
two_types = refl
