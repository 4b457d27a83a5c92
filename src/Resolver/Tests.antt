-- ===== src/Resolver/Tests.antt =====
-- Runs of the resolver of include/http/resolver.hpp on concrete inputs.
use libcoio.Base.{
  ◌⊎◌, ℕ, ◌+◌, ◌≡◌, refl, ◌↔◌, false, none, some, List, [], ◌∷◌, arith, length, codes,
}
use libcoio.Outcome.{returned, threw, logic_error}
use libcoio.Protocol.{default_address}
use libcoio.Resolver.{
  Answer, AsyncResolver, AsyncQueryAwaiter, submit_query, await_resume, init, Ares, asks, wakes,
  tests, swaps, starts, submitted, gets_fds, answers, processed, loads, Steps, stay, more, blocked,
  ended, processing, deciding, polling, submitting, taking, push_query, try_wakeup, query_callback,
  store_answer,
}
use libcoio.Resolver.Weights.{count, recipients}
use libcoio.Resolver.Once.{each_query_once}
use libcoio.Resolver.Progress.{GoesOn, AllAnswered, reached-GoesOn}
use libcoio.Resolver.Pending.{sleeps-answered}
use libcoio.Resolver.Ended.{late_query}
use libcoio.Resolver.Shutdown.{Sleeps}
use mathlib.Core.List.{map}
use libcoio.Resolver.AddressList.{
  Addrinfo, begin, visit, increment, increment_post, same_node, get_name, to_address,
}
use libcoio.Resolver.Listing.{listing, visit-begin}

length_zero : (c : List ℕ) → (length c ≡ 0) ↔ (c ≡ [])
length_zero [] = (λ e. refl, λ e. refl)
length_zero (x ∷ xs) = (λ e. absurd (omega (arith, e)), λ e. cc (e))

abbrev counting : Ares
counting = record { ares_fds = length; fds_idle = length_zero }

abbrev unset : ℕ → AsyncQueryAwaiter
unset a = submit_query 9

-- One query, from the question to the sleep of the poll thread.
abbrev asked : AsyncResolver
asked = push_query 7 70 (init unset)

abbrev woken : AsyncResolver
woken = try_wakeup (record asked { unwoken = 0 })

abbrev in_ares : AsyncResolver
in_ares = record woken { m_query_list = []; qlist = []; channel = 7 ∷ []; poll = processing }

abbrev found : Answer
found = record { awaiter = 7; status = 0; res = some 5 }

abbrev answered : AsyncResolver
answered = query_callback found (record in_ares { channel = [] })

abbrev asleep : AsyncResolver
asleep = record answered { poll = blocked }

to_ares : Steps counting woken in_ares
to_ares =
    more woken (record woken { poll = taking }) in_ares (tests woken refl)
      (more (record woken { poll = taking })
        (record woken { m_query_list = []; qlist = 7 ∷ []; poll = submitting }) in_ares
        (swaps (record woken { poll = taking }) refl)
        (more (record woken { m_query_list = []; qlist = 7 ∷ []; poll = submitting })
          (record in_ares { poll = submitting }) in_ares
          (starts (record woken { m_query_list = []; qlist = 7 ∷ []; poll = submitting }) 7 [] refl
            refl)
          (more (record in_ares { poll = submitting }) (record in_ares { poll = polling }) in_ares
            (submitted (record in_ares { poll = submitting }) refl refl)
            (more (record in_ares { poll = polling }) in_ares in_ares
              (gets_fds (record in_ares { poll = polling }) refl) (stay in_ares)))))

to_sleep : Steps counting in_ares asleep
to_sleep = more in_ares answered asleep (answers in_ares found [] [] refl refl) (
    more answered (record answered { poll = deciding }) asleep (processed answered refl)
      (more (record answered { poll = deciding }) asleep asleep
        (loads (record answered { poll = deciding }) refl) (stay asleep)))

steps-append :
    (s t u : AsyncResolver) → Steps counting s t → Steps counting t u → Steps counting s u
steps-append _ t u (stay s) ys = ys
steps-append _ t u (more s r _ x xs) ys = more s r u x (steps-append r t u xs ys)

whole_run : Steps counting (init unset) asleep
whole_run = more (init unset) asked asleep (asks (init unset) 7 70) (
    more asked woken asleep (wakes asked 0 refl)
      (steps-append woken in_ares asleep to_ares to_sleep))

-- What the coroutine is given when the context has run the task.
given : await_resume (store_answer found (asleep.awaiters 7)) ≡ some 5
unfolding await_resume
given = refl

failed : await_resume (store_answer (record found { status = 4 }) (unset 7)) ≡ none
unfolding await_resume
failed = refl

each_query_once_example :
    count 7 asleep.asked
    ≡ count 7 asleep.m_query_list
      + count 7 asleep.qlist
      + count 7 asleep.channel
      + count 7 (recipients asleep.posted)
      + count 7 asleep.resumed
each_query_once_example = each_query_once counting unset asleep whole_run 7

sleeps-answered_example :
    (asleep.stop_requested ≡ false)
    × (count 7 asleep.asked ≡ count 7 (recipients asleep.posted) + count 7 asleep.resumed)
sleeps-answered_example =
    sleeps-answered counting unset asleep whole_run refl refl refl (omega arith) 7

late_query_example :
    (s : AsyncResolver) × Steps counting (init unset) s
    × (s.stop_requested ≡ false)
    × (s.asked ≡ [])
    × ((t : AsyncResolver) → Steps counting (push_query 7 70 s) t → count 7 t.resumed ≡ 0)
late_query_example = late_query counting unset 7 70

reached-GoesOn_example : (asleep.poll ≡ ended) ⊎ (GoesOn counting asleep ⊎ AllAnswered asleep)
reached-GoesOn_example = reached-GoesOn counting unset asleep whole_run (omega arith)

-- One alias and two nodes, the second of another family.
abbrev two_nodes : Addrinfo
two_nodes = record {
  cnames = codes "a" ∷ [];
  nodes =
      record { ai_family = 2; ai_addrlen = 16; ai_addr = default_address }
      ∷ record { ai_family = 10; ai_addrlen = 28; ai_addr = default_address }
      ∷ [];
}

both :
    visit 3 (begin two_nodes)
    ≡ (codes "a", some (returned default_address)) ∷ ([], some (threw logic_error)) ∷ []
unfolding visit begin increment same_node get_name to_address
both = refl

-- `it++` leaves the iterator where it is.
stuck_iterator : (increment_post (begin two_nodes)).1 ≡ begin two_nodes
unfolding increment_post
stuck_iterator = refl

visit-begin_example : visit 3 (begin two_nodes) ≡ listing two_nodes.cnames two_nodes.nodes
visit-begin_example = visit-begin 3 two_nodes (omega arith)

-- Every query is answered with 16, `ARES_EDESTRUCTION`.
abbrev cancelled : List ℕ → List Answer
cancelled c = map (λ a. record { awaiter = a; status = 16; res = none }) c

asleep_at_start :
    Sleeps cancelled (record in_ares { poll = blocked; channel = []; m_pending_cnt = 0 })
asleep_at_start = record {
  sleeping = refl;
  nothing_asked = refl;
  nothing_answered = refl;
  small = omega arith;
}
