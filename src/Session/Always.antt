-- ===== src/Session/Always.antt =====
-- What holds of every run of a program, whatever its runtime answers: of every query, with the log
-- of what was asked and answered before it, and of the result, with the whole log.
use uring_mqtt.Common.{List, ◌∷◌}
use uring_mqtt.Session.Io.{Query, Answer, Program, give, ask, bind}

-- Newest first.
pub record Event : Type 0 where
  pub query : Query
  pub answer : Answer query

abbrev pub Log : Type 0
Log = List Event

abbrev pub event : (q : Query) → Answer q → Event
event q a = record { query = q; answer = a }

abbrev pub Always :
    {R : Type 0} → (Log → Query → Type 0) → (Log → R → Type 0) → Log → Program R → Type 0
Always P Q log (give r) = Q log r
Always P Q log (ask q k) = P log q × ((a : Answer q) → Always P Q (event q a ∷ log) (k a))

Always-bind :
    {R S : Type 0}
    → (P : Log → Query → Type 0) (Q : Log → S → Type 0) (k : R → Program S) (log : Log)
      (p : Program R)
    → Always P (λ l r. Always P Q l (k r)) log p
    → Always P Q log (bind p k)
unfolding bind
Always-bind P Q k log (give r) h = h
Always-bind P Q k log (ask q p) (now_, later) =
    (now_, λ a. Always-bind P Q k (event q a ∷ log) (p a) (later a))

pub Always-map :
    {R : Type 0}
    → (P : Log → Query → Type 0) (Q Q' : Log → R → Type 0) (log : Log) (p : Program R)
    → ((l : Log) (r : R) → Q l r → Q' l r)
    → Always P Q log p
    → Always P Q' log p
Always-map P Q Q' log (give r) f h = f log r h
Always-map P Q Q' log (ask q p) f (now_, later) =
    (now_, λ a. Always-map P Q Q' (event q a ∷ log) (p a) f (later a))

-- A program and what follows each of its results.
pub Always-then :
    {R S : Type 0}
    → (P : Log → Query → Type 0) (Q : Log → R → Type 0) (Q' : Log → S → Type 0) (k : R → Program S)
      (log : Log) (p : Program R)
    → Always P Q log p
    → ((l : Log) (r : R) → Q l r → Always P Q' l (k r))
    → Always P Q' log (bind p k)
Always-then P Q Q' k log p h f =
    Always-bind P Q' k log p (Always-map P Q (λ l r. Always P Q' l (k r)) log p f h)

-- What no event takes back is kept, and weakens both.
pub Always-keep :
    {R : Type 0}
    → (I : Log → Type 0) (P P' : Log → Query → Type 0) (Q Q' : Log → R → Type 0) (log : Log)
      (p : Program R)
    → ((e : Event) (l : Log) → I l → I (e ∷ l))
    → ((l : Log) (q : Query) → I l → P l q → P' l q)
    → ((l : Log) (r : R) → I l → Q l r → Q' l r)
    → I log
    → Always P Q log p
    → Always P' Q' log p
Always-keep I P P' Q Q' log (give r) grows f g i h = g log r i h
Always-keep I P P' Q Q' log (ask q p) grows f g i (now_, later) = (
  f log q i now_,
  λ a.
      Always-keep I P P' Q Q' (event q a ∷ log) (p a) grows f g (grows (event q a) log i) (later a),
)
