-- ===== src/Tests/Connecting.antt =====
-- Uses of the theorems on the gateway.
use stoatpp.Prelude.{
  ℕ, suc, ◌+◌, ◌≤◌, ◌<◌, ◌≡◌, ◌≢◌, refl, true, ◌&&◌, Option, none, some, [], ◌*◌, length,
  if◌then◌else◌, arith, Every, Every-weaken,
}
use stoatpp.Prelude.Int.{ℤ, pos}
use stoatpp.Text.{Text, lit, text_eq}
use stoatpp.Json.{value_or}
use stoatpp.Gateway.Session.{Session}
use stoatpp.Gateway.Handle.{handle_event, handle_all}
use stoatpp.Gateway.Bulk.{flatten, handle_single, Shrinks, handle_event-flatten}
use stoatpp.Gateway.Ends.{handle_event-ends}
use stoatpp.Gateway.Life.{new_session}
use stoatpp.Gateway.Session.{exhausted}
use stoatpp.Tests.Sample.{
  Value, Items, Fields, null, flag, number, string, array, object, end, item, empty, entry, find,
  present, content, list_of, sample_json,
}

mutual
  size : Value → ℕ
  size null = 1
  size (flag b) = 1
  size (number n) = 1
  size (string s) = 1
  size (array vs) = suc (size_items vs)
  size (object fs) = suc (size_fields fs)

  size_items : Items → ℕ
  size_items end = 0
  size_items (item v vs) = size v + size_items vs

  size_fields : Fields → ℕ
  size_fields empty = 0
  size_fields (entry k v fs) = size v + size_fields fs

items-size : (vs : Items) → Every (λ e. size e ≤ size_items vs) (list_of vs)
unfolding size
items-size end = tt
items-size (item v vs) = (
  omega arith,
  Every-weaken (λ e. size e ≤ size_items vs) (λ e. size e ≤ size v + size_items vs)
      (λ e h. omega (arith, h)) (list_of vs) (items-size vs),
)

find-size : (k : Text) (fs : Fields) (v : Value) → find k fs ≡ some v → size v ≤ size_fields fs
unfolding size
find-size k empty v h = cc
find-size k (entry i w fs) v h = ground (arith, find-size k fs v)

parts-size :
    (n : ℕ) (o : Option Value)
    → ((v : Value) → o ≡ some v → size v ≤ n)
    → Every
        (λ e. size e < suc n)
        (value_or
          (if present o && sample_json.is_array (content o)
            then some (sample_json.elements (content o))
            else none)
          [])
unfolding size
parts-size n none h = tt
parts-size n (some null) h = tt
parts-size n (some (flag b)) h = tt
parts-size n (some (number k)) h = tt
parts-size n (some (string s)) h = tt
parts-size n (some (object fs)) h = tt
parts-size n (some (array vs)) h =
    Every-weaken (λ e. size e ≤ size_items vs) (λ e. size e < suc n)
      (λ e le. omega (arith, le, h (array vs) refl)) (list_of vs) (items-size vs)

sample-Shrinks : Shrinks sample_json size
unfolding size
sample-Shrinks null = tt
sample-Shrinks (flag b) = tt
sample-Shrinks (number n) = tt
sample-Shrinks (string s) = tt
sample-Shrinks (array vs) = tt
sample-Shrinks (object fs) =
    parts-size (size_fields fs) (find (lit "v") fs) (find-size (lit "v") fs)

abbrev leave : Value
leave = object (
    entry (lit "type") (string (lit "ServerMemberLeave"))
      (entry (lit "id") (string (lit "s1")) (entry (lit "user") (string (lit "alice")) empty)))

abbrev greeting : Value
greeting = object (entry (lit "type") (string (lit "Authenticated")) empty)

-- A `Bulk` inside a `Bulk`.
abbrev bundle : Value
bundle = object (
    entry (lit "type") (string (lit "Bulk")) (
      entry (lit "v")
        (array (
          item greeting (
            item
              (object (
                entry (lit "type") (string (lit "Bulk"))
                  (entry (lit "v") (array (item leave end)) empty)))
              end)))
        empty))

abbrev clock : ℕ → ℤ
clock n = pos (1000 * n)

abbrev open_session : Session sample_json
open_session = record (new_session sample_json) { connected = true }

bundle-size : size bundle < 20
unfolding size
bundle-size = omega arith

handle_event-flatten_example :
    handle_event sample_json clock 20 bundle open_session
    ≡ handle_all sample_json
        (handle_single sample_json clock)
        (flatten sample_json 20 bundle)
        open_session
handle_event-flatten_example =
    handle_event-flatten sample_json clock size sample-Shrinks 20 bundle bundle-size open_session

handle_event-ends_example :
    (handle_event sample_json clock 20 bundle open_session).ended ≢ exhausted
handle_event-ends_example =
    handle_event-ends sample_json clock size sample-Shrinks 20 bundle bundle-size open_session

-- The frame of `Ping` goes out, and the leave is dispatched.
bundle_effects : length (handle_event sample_json clock 20 bundle open_session).effects ≡ 6
unfolding handle_event text_eq
bundle_effects = refl
