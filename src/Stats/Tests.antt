-- ===== src/Stats/Tests.antt =====
-- The theorems on the circular buffer at one of capacity 3, after five insertions.
use dinosaur_dns.Common.{
  ℕ, ◌≡◌, Bool, List, [], ◌∷◌, ◌++◌, Str, refl, false, map, none, some, take, filter_by, is_none,
  ltb, leb, arith,
}
use dinosaur_dns.Stats.Buffer.{CircularBuffer, new, insert, tail, tail_between, passes, ends}
use dinosaur_dns.Stats.{ConnectionLog}
use dinosaur_dns.Proxy.Sample.{zero_item}
use dinosaur_dns.Stats.Channels.{LogClients, Event, connects, closes, removes, adds, log_steps}
use dinosaur_dns.Stats.Channels.Clients.{IsOther, IsNoConnect, messages}
use dinosaur_dns.Stats.Channels.Delivery.{log_steps-messages}
use dinosaur_dns.Stats.Buffer.Invariant.{Holds, new-Holds, inserted, insert-Holds}
use dinosaur_dns.Stats.Buffer.Reads.{recent, tail_lem}
use dinosaur_dns.Stats.Buffer.Tail.{limit, before, opened, tail_between_lem}

abbrev after_four : CircularBuffer ℕ
after_four = inserted 40 (inserted 30 (inserted 20 (inserted 10 (new 0 3))))

abbrev four_items : List ℕ
four_items = 40 ∷ 30 ∷ 20 ∷ 10 ∷ []

after_four-Holds : Holds after_four four_items
after_four-Holds =
    (insert-Holds 40 (inserted 30 (inserted 20 (inserted 10 (new 0 3)))) (30 ∷ 20 ∷ 10 ∷ [])
      (insert-Holds 30 (inserted 20 (inserted 10 (new 0 3))) (20 ∷ 10 ∷ [])
        (insert-Holds 20 (inserted 10 (new 0 3)) (10 ∷ [])
          (insert-Holds 10 (new 0 3) [] (new-Holds 0 3 (omega arith))).1).1).1).1

abbrev after_five : CircularBuffer ℕ
after_five = inserted 50 after_four

abbrev five_items : List ℕ
five_items = 50 ∷ four_items

insert-Holds_example :
    (insert 50 after_four ≡ some (after_five, map (λ id. (id, 50)) after_four.hooks))
    × Holds after_five five_items
insert-Holds_example = insert-Holds 50 after_four four_items after_four-Holds

after_five-Holds : Holds after_five five_items
after_five-Holds = (insert-Holds 50 after_four four_items after_four-Holds).1

tail_lem_example : tail 2 after_five ≡ some (take 2 (recent after_five five_items))
tail_lem_example = tail_lem 2 after_five five_items after_five-Holds

tail_between_lem_example :
    tail_between 0 (some (λ x. leb x 40)) (some (λ x. ltb x 20)) none after_five
    ≡ some (
        limit 0 (
          filter_by (passes none) (
            opened
              (is_none {A = ℕ → Bool} (some (λ x. leb x 40)))
              (some (λ x. leb x 40))
              (before (ends (some (λ x. ltb x 20))) (recent after_five five_items)))))
tail_between_lem_example =
    tail_between_lem 0 (some (λ x. leb x 40)) (some (λ x. ltb x 20)) none after_five five_items
      after_five-Holds

-- The buffer keeps the last three items.
tail_all : tail 9 after_five ≡ some (50 ∷ 40 ∷ 30 ∷ [])
tail_all = tail_lem 9 after_five five_items after_five-Holds

abbrev client : Str
client = 49 ∷ []

abbrev other_client : Str
other_client = 50 ∷ []

abbrev item_for : Str → ConnectionLog
item_for name = record zero_item { qname = name }

-- No client is there.
abbrev no_clients : LogClients
no_clients = record {
  stats = new zero_item 3;
  channels = λ id. record { is_open = false; sent = [] };
}

abbrev between_events : List Event
between_events =
    connects other_client
    ∷ adds (item_for (97 ∷ []))
    ∷ closes other_client
    ∷ adds (item_for (98 ∷ []))
    ∷ []

abbrev late_events : List Event
late_events = adds (item_for (99 ∷ [])) ∷ removes client ∷ adds zero_item ∷ []

sent_between : messages (λ c. c.qname) between_events ≡ (97 ∷ []) ∷ (98 ∷ []) ∷ []
unfolding messages
sent_between = refl

log_steps-messages_example :
    (s' : LogClients) × (log_steps
        (λ c. c.qname)
        (connects client ∷ (between_events ++ (closes client ∷ late_events)))
        no_clients
      ≡ some s')
    × (s'.channels client
        ≡ record { is_open = false; sent = messages (λ c. c.qname) between_events })
unfolding IsOther IsNoConnect
log_steps-messages_example =
    log_steps-messages (λ c. c.qname) client between_events late_events no_clients []
      (new-Holds zero_item 3 (omega arith))
      ((λ e. absurd (ground arith)), (tt, ((λ e. absurd (ground arith)), (tt, tt))))
      (tt, (tt, (tt, tt)))
