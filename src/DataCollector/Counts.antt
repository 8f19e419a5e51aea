-- ===== src/DataCollector/Counts.antt =====
-- The counters against the log of the requests.
use foxy_4_web_server.Base.{
  ℕ, ◌+◌, ◌≤◌, ◌<◌, ◌&&◌, Option, none, some, List, [], ◌∷◌, ◌≡◌, refl, inl, inr, arith, length,
  if◌then◌else◌, Bool-cases, Option-cases, Outcome, ok, ◌>>=◌,
}
use foxy_4_web_server.Base.Bytes.{Bytes, same, same_iff}
use foxy_4_web_server.Base.Dict.{Dict, lookup, put, get_or, lookup-put}
use foxy_4_web_server.Base.Text.{int_max}
use foxy_4_web_server.Http.{StatusCode}
use foxy_4_web_server.DataCollector.{
  DataCollector, new_collector, map_status_to_string, bump, increment_request,
}

abbrev count_in : Bytes → Option (Dict ℕ) → ℕ
count_in status none = 0
count_in status (some m) = get_or status 0 m

-- The number that the status page shows for a URI and a status, 0 where it shows none.
abbrev pub count : Bytes → Bytes → DataCollector → ℕ
count uri status c = count_in status (lookup uri c.status_map)

abbrev pub Event : Type 0
Event = Bytes × StatusCode

-- One for an event of that URI and status.
abbrev pub hit : Bytes → Bytes → Event → ℕ
hit uri status (u, code) = if same u uri && same (map_status_to_string code) status then 1 else 0

-- The specification: how often the log holds the URI with the status.
abbrev pub tally : Bytes → Bytes → List Event → ℕ
tally uri status [] = 0
tally uri status (e ∷ es) = hit uri status e + tally uri status es

-- The calls of `increment_request`, in the order of the log.
abbrev pub record_all : List Event → DataCollector → Outcome DataCollector
record_all [] c = ok c
record_all ((uri, code) ∷ es) c = do c' ← increment_request uri code c; record_all es c'

bump-get_or :
    (status : Bytes) (m : Dict ℕ) (k : ℕ)
    → get_or status 0 m ≤ k
    → k < int_max
    → (m' : Dict ℕ) × (bump status m ≡ ok m')
      × ((j : Bytes) → get_or j 0 m' ≡ get_or j 0 m + (if same status j then 1 else 0))
unfolding bump get_or
bump-get_or status m k h lt = elim (Option-cases (lookup status m)) [
  | inl new ↦ (
    put status 1 m,
    rw (bump, new) refl,
    λ i. ground (arith, lookup-put status i 1 m, same_iff status i, new),
  )
  | inr (n, old) ↦ (
    put status (n + 1) m,
    ground arith,
    λ i. ground (arith, lookup-put status i (n + 1) m, same_iff status i, old),
  )
]

-- A table of a URI that counts one more makes the URI's counter one more.
entered :
    (uri u status s : Bytes) (whole : Dict (Dict ℕ)) (m' : Dict ℕ)
    → get_or s 0 m' ≡ count_in s (lookup uri whole) + (if same status s then 1 else 0)
    → count_in s (lookup u (put uri m' whole))
      ≡ count_in s (lookup u whole) + (if same uri u && same status s then 1 else 0)
entered uri u status s whole m' h = elim (Bool-cases (same uri u)) [
  | inl here ↦ rw (lookup-put uri u m' whole, here) (rw ((same_iff uri u).0 here) at h)
  | inr other ↦ rw (lookup-put uri u m' whole, other) (omega arith)
]

first_count :
    (status j : Bytes) → get_or {V = ℕ} j 0 (put status 1 []) ≡ (if same status j then 1 else 0)
unfolding get_or lookup put
first_count status j = ground arith

-- A call that no counter stops adds one to its own counter and leaves the others.
pub increment_request-count :
    (uri : Bytes) (code : StatusCode) (c : DataCollector) (k : ℕ)
    → count uri (map_status_to_string code) c ≤ k
    → k < int_max
    → (c' : DataCollector) × (increment_request uri code c ≡ ok c')
      × ((u s : Bytes) → count u s c' ≡ count u s c + hit u s (uri, code))
unfolding increment_request
increment_request-count uri code c k h lt =
    let status = map_status_to_string code in
    elim (Option-cases (lookup uri c.status_map)) [
      | inl new ↦ (
        record c { status_map = put uri (put status 1 []) c.status_map },
        rw (increment_request, new) refl,
        λ u s.
            entered uri u status s c.status_map (put status 1 [])
              (rw new (omega (arith, first_count status s))),
      )
      | inr (m, old) ↦
          let (m', e, counts) = bump-get_or status m k (rw old at h) lt in
          (
            record c { status_map = put uri m' c.status_map },
            rw (increment_request, old, e) refl,
            λ u s. entered uri u status s c.status_map m' (rw old (counts s)),
          )
    ]

-- Counters that are at most `k` before the log are at most `k` and its length after it.
record_all-count :
    (es : List Event) (c : DataCollector) (k : ℕ)
    → ((u s : Bytes) → count u s c ≤ k)
    → k + length es ≤ int_max
    → (c' : DataCollector) × (record_all es c ≡ ok c')
      × ((u s : Bytes) → count u s c' ≡ count u s c + tally u s es)
record_all-count [] c k h lt = (c, refl, λ u s. omega arith)
record_all-count ((uri, code) ∷ es) c k h lt =
    let (c1, e, first) = increment_request-count uri code c k (h uri _) (omega arith) in
    let (c2, f, more) =
      record_all-count es c1 (k + 1) (λ u s. ground (arith, first u s, h u s)) (omega arith) in
    (c2, rw e f, λ u s. omega (arith, first u s, more u s))

-- After any log of at most `int_max` requests, each counter is the number of the requests of its
-- URI with its status, whatever the order in which the threads have entered them.
pub record_all-tally :
    (es : List Event)
    → length es ≤ int_max
    → (c : DataCollector) × (record_all es new_collector ≡ ok c)
      × ((uri status : Bytes) → count uri status c ≡ tally uri status es)
unfolding lookup
record_all-tally es h =
    let (c, e, counts) = record_all-count es new_collector 0 (λ u s. omega arith) (omega arith) in
    (c, e, λ u s. omega (arith, counts u s))
