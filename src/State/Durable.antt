-- ===== src/State/Durable.antt =====
-- What it means that a stream yields nothing that is not yet committed.
use aiplatform.Shared.{◌≡◌, List, [], ◌∷◌, ◌++◌}
use aiplatform.State.Tables.{Db, StreamItem}
use aiplatform.State.Rows.{Sent, World}

-- Everything yielded so far was committed when it was yielded.
abbrev pub AllDurable : List Sent → Type 0
AllDurable [] = Unit
AllDurable (x ∷ xs) = (x.seen ≡ x.stored) × AllDurable xs

pub AllDurable-append : (xs ys : List Sent) → AllDurable xs → AllDurable ys → AllDurable (xs ++ ys)
AllDurable-append [] ys hx hy = hy
AllDurable-append (x ∷ xs) ys (h, hx) hy = (h, AllDurable-append xs ys hx hy)

-- Everything sent was durable when it was sent.
abbrev pub IsDurable : World → Type 0
IsDurable w = AllDurable w.sent

pub sent-AllDurable :
    (i : StreamItem) (xs : List Sent) (d e : Db)
    → d ≡ e
    → AllDurable xs
    → AllDurable (xs ++ (record { item = i; seen = d; stored = e }) ∷ [])
sent-AllDurable i xs d e s h = AllDurable-append xs _ h (s, tt)

pub durable_as : (xs ys : List Sent) → xs ≡ ys → AllDurable ys → AllDurable xs
durable_as xs ys e h = rw e h
