-- ===== src/Grid/Numbers.antt =====
-- A tab's requests over any sequence of messages.
use db_tui.Common.{ℕ, suc, ◌+◌, ◌^◌, ◌≤◌, ◌<◌, List, [], ◌∷◌, none, some, arith, length}
use db_tui.Grid.State.{
  Platform, Model, Cmd, Message, describe_intent, load_page_intent, apply_intent, cancel_intent,
}
use db_tui.Grid.Issue.{Issues}
use db_tui.Grid.Update.{update}
use db_tui.Grid.Waiting.{update-Issues}

-- the number of the request that a command starts, in front of the others
abbrev pub with_number : Cmd → List ℕ → List ℕ
with_number none ns = ns
with_number (some (describe_intent id meta)) ns = meta.request ∷ ns
with_number (some (load_page_intent r page meta)) ns = meta.request ∷ ns
with_number (some (apply_intent request meta)) ns = meta.request ∷ ns
with_number (some (cancel_intent operation)) ns = ns

-- the numbers of the requests that the messages start, in order
unfoldable pub numbers : Platform → Model → List Message → List ℕ
numbers p m [] = []
numbers p m (message ∷ messages) =
    with_number (update p m message).1 (numbers p (update p m message).0 messages)

-- from `low` on, each number above the one before it
abbrev pub Ascending : ℕ → List ℕ → Type 0
Ascending low [] = Unit
Ascending low (n ∷ ns) = (low ≤ n) × Ascending (suc n) ns

Ascending-mono : (low high : ℕ) (ns : List ℕ) → low ≤ high → Ascending high ns → Ascending low ns
Ascending-mono low high [] h a = tt
Ascending-mono low high (n ∷ ns) h a = (omega arith, a.1)

with_number-Ascending :
    (before : ℕ) (after : Model) (cmd : Cmd) (ns : List ℕ)
    → Issues before after cmd
    → suc before < 2 ^ 64
    → Ascending after.next_request ns
    → Ascending before (with_number cmd ns)
with_number-Ascending before after none ns h f a = Ascending-mono before _ ns (omega arith) a
with_number-Ascending before after (some (describe_intent id meta)) ns h f a =
    (omega arith, Ascending-mono (suc meta.request) after.next_request ns (omega arith) a)
with_number-Ascending before after (some (load_page_intent r page meta)) ns h f a =
    (omega arith, Ascending-mono (suc meta.request) after.next_request ns (omega arith) a)
with_number-Ascending before after (some (apply_intent request meta)) ns h f a =
    (omega arith, Ascending-mono (suc meta.request) after.next_request ns (omega arith) a)
with_number-Ascending before after (some (cancel_intent operation)) ns h f a =
    Ascending-mono before _ ns (omega arith) a

next-le :
    (before : ℕ) (after : Model) (cmd : Cmd)
    → Issues before after cmd
    → suc before < 2 ^ 64
    → after.next_request ≤ suc before
next-le before after none h f = omega arith
next-le before after (some (describe_intent id meta)) h f = omega arith
next-le before after (some (load_page_intent r page meta)) h f = omega arith
next-le before after (some (apply_intent request meta)) h f = omega arith
next-le before after (some (cancel_intent operation)) h f = omega arith

-- Over any sequence of messages the requests of a tab are numbered upwards, from the number that is
-- next: no number is used twice, as long as the uint64 does not wrap.
pub numbers-Ascending :
    (p : Platform) (m : Model) (messages : List Message)
    → m.next_request + length messages < 2 ^ 64
    → Ascending m.next_request (numbers p m messages)
unfolding numbers
numbers-Ascending p m [] f = tt
numbers-Ascending p m (message ∷ messages) f =
    let issued = update-Issues p m message in
    with_number-Ascending m.next_request (update p m message).0 (update p m message).1
      (numbers p (update p m message).0 messages) issued (omega arith)
      (numbers-Ascending p (update p m message).0 messages
        (omega (arith, next-le m.next_request _ _ issued (omega arith))))
