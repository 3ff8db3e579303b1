-- ===== src/Client/Ending.antt =====
-- How the search for a broker ends (dtn/client.py, `_find_broker`), from fetch to fetch.
use ma_sinafadavi_gpt.Base.{
  ◌≡◌, ◌∙◌, refl, ap, sym, ◌⊎◌, inl, inr, Bool, Bool-cases, true, false, ◌&&◌, ◌||◌, Option, none,
  some, List, [], ◌∷◌, ◌++◌, append-nil, map, take, Result, ok, All, arith, ◌==◌,
}
use ma_sinafadavi_gpt.Eid.{Endpoint, same, truthy}
use ma_sinafadavi_gpt.Bundles.{BundleData, new, is_discovery, between}
use ma_sinafadavi_gpt.Bundles.BundleType
use ma_sinafadavi_gpt.Bundles.NodeType
use ma_sinafadavi_gpt.Messages.{Message}
use ma_sinafadavi_gpt.Node
use ma_sinafadavi_gpt.Node.{Node, request, singly, on_announce, on_ack, new_bundles}
use ma_sinafadavi_gpt.Client.{heard, hear, search_on, fetched, search_broker, find_broker}
use ma_sinafadavi_gpt.Client.Exchange.{brought}

-- A node that asked a broker, and one that a broker took.
abbrev pub asking : Node → Endpoint → Node
asking n source = record n { broker_pending = some source }

abbrev pub joined : Node → Endpoint → Node
joined n broker = record n { broker = some broker; broker_pending = none }

-- Whether there is an announcement, and whether there is an acknowledgement from an endpoint.
abbrev pub announced : List BundleData → Bool
announced [] = false
announced (b ∷ bs) = (b.type == BundleType.broker_announce) || announced bs

abbrev pub acked : Endpoint → List BundleData → Bool
acked source [] = false
acked source (b ∷ bs) = (b.type == BundleType.broker_ack) && same source b.source || acked source bs

-- A bundle that is answered with nothing.
hear-silent :
    (b : BundleData) (bs sent : List BundleData) (n m : Node)
    → is_discovery b.type ≡ true
    → Node.handle_discovery b n ≡ (ok [], m)
    → hear (b ∷ bs) n sent ≡ hear bs m sent
unfolding hear heard take
hear-silent b bs sent n m d h = rw (d, h, append-nil sent)

hear-unchanged :
    (b : BundleData) (bs sent : List BundleData) (n : Node)
    → Node.handle_discovery b n ≡ (ok [], n)
    → hear (b ∷ bs) n sent ≡ hear bs n sent
unfolding hear
hear-unchanged b bs sent n h = elim (Bool-cases (is_discovery b.type)) [
  | inl discovery ↦ hear-silent b bs sent n n discovery h
  | inr other ↦ rw other refl
]

ack-discovery :
    (b : BundleData) → (b.type == BundleType.broker_ack) ≡ true → is_discovery b.type ≡ true
ack-discovery b h = ground arith

not_announce :
    (b : BundleData)
    → (b.type == BundleType.broker_ack) ≡ true
    → (b.type == BundleType.broker_announce) ≡ false
not_announce b h = ground arith

module _ (n : Node) (no_pending : n.broker_pending ≡ none) (no_broker : n.broker ≡ none) where
  idle-unchanged :
      (b : BundleData)
      → (b.type == BundleType.broker_announce) ≡ false
      → Node.handle_discovery b n ≡ (ok [], n)
  unfolding Node.handle_discovery on_ack
  idle-unchanged b h = elim (Bool-cases (b.type == BundleType.broker_ack)) [
    | inl ack ↦ rw (h, ack, no_pending) refl
    | inr other ↦ rw (h, other) refl
  ]

  hear-idle :
      (before bs : List BundleData)
      → announced before ≡ false
      → hear (before ++ bs) n [] ≡ hear bs n []
  hear-idle [] bs h = refl
  hear-idle (b ∷ before) bs h =
      hear-unchanged b (before ++ bs) [] n (idle-unchanged b (ground arith))
      ∙ hear-idle before bs (ground arith)

  joined-unchanged :
      (b : BundleData) (broker : Endpoint)
      → Node.handle_discovery b (joined n broker) ≡ (ok [], joined n broker)
  unfolding Node.handle_discovery on_announce on_ack
  joined-unchanged b broker = ground arith

  hear-joined :
      (bs sent : List BundleData) (broker : Endpoint)
      → hear bs (joined n broker) sent ≡ (ok tt, (joined n broker, sent))
  unfolding hear
  hear-joined [] sent broker = refl
  hear-joined (b ∷ bs) sent broker =
      hear-unchanged b bs sent (joined n broker) (joined-unchanged b broker)
      ∙ hear-joined bs sent broker

  module _ (source : Endpoint) (sent : List BundleData) where
    -- The node still asks, if no acknowledgement came from there, or it has joined.
    abbrev Heard : List BundleData → Type 0
    Heard bs =
        ((acked source bs ≡ false)
          × (hear bs (asking n source) sent ≡ (ok tt, (asking n source, sent))))
        ⊎ ((broker : Endpoint) × (same source broker ≡ true)
            × (hear bs (asking n source) sent ≡ (ok tt, (joined n broker, sent))))

    asking-unchanged :
        (b : BundleData)
        → ((b.type == BundleType.broker_ack) && same source b.source) ≡ false
        → Node.handle_discovery b (asking n source) ≡ (ok [], asking n source)
    unfolding Node.handle_discovery on_announce on_ack
    asking-unchanged b h = ground arith

    asking-joined :
        (b : BundleData)
        → (b.type == BundleType.broker_ack) ≡ true
        → same source b.source ≡ true
        → Node.handle_discovery b (asking n source) ≡ (ok [], joined n b.source)
    unfolding Node.handle_discovery on_announce on_ack
    asking-joined b h k = rw (not_announce b h, h, k) refl

    hear-asking : (bs : List BundleData) → Heard bs
    unfolding hear
    hear-asking [] = inl (refl, refl)
    hear-asking (b ∷ bs) =
        elim (Bool-cases ((b.type == BundleType.broker_ack) && same source b.source)) [
          | inl taken ↦
              let from_there : same source b.source ≡ true = ground arith in
              let ack : (b.type == BundleType.broker_ack) ≡ true = ground arith in
              inr (
                b.source,
                from_there,
                (hear-silent b bs sent (asking n source) (joined n b.source) (ack-discovery b ack)
                      (asking-joined b ack from_there)
                    ∙ hear-joined bs sent b.source),
              )
          | inr other ↦
              let same_run =
                hear-unchanged b bs sent (asking n source) (asking-unchanged b other) in
              elim (hear-asking bs) [
                | inl (none_yet, run) ↦ inl (rw other none_yet, same_run ∙ run)
                | inr (broker, from_there, run) ↦ inr (broker, from_there, same_run ∙ run)
              ]
        ]

    acked-append :
        (before after : List BundleData) (k : BundleData)
        → (k.type == BundleType.broker_ack) ≡ true
        → same source k.source ≡ true
        → acked source (before ++ k ∷ after) ≡ true
    acked-append [] after k h s = rw (h, s) refl
    acked-append (b ∷ before) after k h s = ground (arith, acked-append before after k h s)

    -- The search of a node that has joined ends.
    search_joined :
        (answers : List (Result Message)) (broker : Endpoint)
        → search_broker answers (some broker) (joined n broker) sent
          ≡ (ok true, (joined n broker, sent))
    unfolding search_broker
    search_joined answers broker = refl

    -- The rest of the search, from fetches that may bring the acknowledgement to one that does.
    search-asking :
        (waits : List (List BundleData)) (acking : List BundleData)
        (answers : List (Result Message)) (known : Option Endpoint)
        → known ≡ none
        → acked source acking ≡ true
        → (broker : Endpoint) × (same source broker ≡ true)
          × (search_broker
                (map brought waits ++ brought acking ∷ answers)
                known
                (asking n source)
                sent
              ≡ (ok true, (joined n broker, sent)))
    unfolding search_broker fetched search_on new_bundles
    search-asking waits acking answers (some k) e h = absurd (cc)
    search-asking [] acking answers none e h = elim (hear-asking acking) [
      | inl (none_yet, run) ↦ absurd (cc)
      | inr (broker, from_there, run) ↦ (broker, from_there, rw run (search_joined answers broker))
    ]
    search-asking (bs ∷ waits) acking answers none e h = elim (hear-asking bs) [
      | inl (none_yet, run) ↦
          let (broker, from_there, ends) =
            search-asking waits acking answers n.broker no_broker h in
          (broker, from_there, rw run ends)
      | inr (broker, from_there, run) ↦ (
        broker,
        from_there,
        rw run (search_joined (map brought waits ++ brought acking ∷ answers) broker),
      )
    ]

  on_announce-asks :
      (pending broker : Option Endpoint) (source : Endpoint)
      → pending ≡ none
      → broker ≡ none
      → truthy n.node_id ≡ true
      → truthy source ≡ true
      → between NodeType.broker NodeType.client n.node_type ≡ true
      → on_announce pending broker source n ≡ (ok (request n source ∷ []), asking n source)
  unfolding on_announce singly new
  on_announce-asks (some k) broker source p b hn hs ht = absurd (cc)
  on_announce-asks none (some k) source p b hn hs ht = absurd (cc)
  on_announce-asks none none source p b hn hs ht = rw (hn, hs, ht) refl

  handle_announce :
      (a : BundleData)
      → truthy n.node_id ≡ true
      → truthy a.source ≡ true
      → between NodeType.broker NodeType.client n.node_type ≡ true
      → a.type ≡ BundleType.broker_announce
      → Node.handle_discovery a n ≡ (ok (request n a.source ∷ []), asking n a.source)
  unfolding Node.handle_discovery
  handle_announce a hn ha ht at =
      rw at (on_announce-asks n.broker_pending n.broker a.source no_pending no_broker hn ha ht)

  announce-discovery :
      (a : BundleData) → a.type ≡ BundleType.broker_announce → is_discovery a.type ≡ true
  announce-discovery a at = ground arith

  hear-announced :
      (a : BundleData) (after : List BundleData)
      → a.type ≡ BundleType.broker_announce
      → Node.handle_discovery a n ≡ (ok (request n a.source ∷ []), asking n a.source)
      → hear (a ∷ after) n [] ≡ hear after (asking n a.source) (request n a.source ∷ [])
  unfolding hear heard take
  hear-announced a after at asks = rw (announce-discovery a at, asks) refl

  -- From the fetch that brings the announcement.
  search-announced :
      (a : BundleData) (before after : List BundleData) (waits : List (List BundleData))
      (acking : List BundleData) (answers : List (Result Message)) (known : Option Endpoint)
      → known ≡ none
      → announced before ≡ false
      → hear (a ∷ after) n [] ≡ hear after (asking n a.source) (request n a.source ∷ [])
      → acked a.source acking ≡ true
      → (broker : Endpoint) × (same a.source broker ≡ true)
        × (search_broker
              (brought (before ++ a ∷ after) ∷ (map brought waits ++ brought acking ∷ answers))
              known
              n
              []
            ≡ (ok true, (joined n broker, request n a.source ∷ [])))
  unfolding search_broker fetched search_on new_bundles
  search-announced a before after waits acking answers (some k) e quiet run h = absurd (cc)
  search-announced a before after waits acking answers none e quiet run h =
      let sent = request n a.source ∷ [] in
      elim (hear-asking a.source sent after) [
        | inl (none_yet, heard_on) ↦
            let (broker, from_there, ends) =
              search-asking a.source sent waits acking answers n.broker no_broker h in
            (broker, from_there, rw (hear-idle before (a ∷ after) quiet, run, heard_on) ends)
        | inr (broker, from_there, heard_on) ↦ (
          broker,
          from_there,
          rw (hear-idle before (a ∷ after) quiet, run, heard_on)
              (search_joined a.source sent (map brought waits ++ brought acking ∷ answers) broker),
        )
      ]

  hear-quiet : (bs : List BundleData) → announced bs ≡ false → hear bs n [] ≡ (ok tt, (n, []))
  unfolding hear
  hear-quiet bs h = ap (λ xs. hear xs n []) (sym (append-nil bs)) ∙ hear-idle bs [] h

  -- Fetches without an announcement change nothing.
  search-idle :
      (quiet : List (List BundleData)) (answers : List (Result Message)) (known : Option Endpoint)
      → known ≡ none
      → All (λ bs. announced bs ≡ false) quiet
      → search_broker (map brought quiet ++ answers) known n []
        ≡ search_broker answers n.broker n []
  unfolding search_broker fetched search_on new_bundles
  search-idle quiet answers (some k) e h = absurd (cc)
  search-idle [] answers none e h = ap (λ k. search_broker answers k n []) (sym no_broker)
  search-idle (bs ∷ quiet) answers none e (first, later) =
      rw (hear-quiet bs first) (search-idle quiet answers n.broker no_broker later)

  -- A client that is neither pending nor associated, whose fetches succeed: they bring no
  -- announcement at first, then one brings an announcement, and a later one an acknowledgement from
  -- the endpoint that announced itself first, whatever else they bring and however many there are.
  -- Then the search ends: the client is associated with that endpoint, as it is spelled in an
  -- acknowledgement, and has sent one bundle, the request to it, if neither endpoint is `dtn:none`
  -- and the client has one of the four node types.
  pub find_broker-ends :
      (quiet waits : List (List BundleData)) (before after early late : List BundleData)
      (a k : BundleData) (answers : List (Result Message))
      → truthy n.node_id ≡ true
      → truthy a.source ≡ true
      → between NodeType.broker NodeType.client n.node_type ≡ true
      → All (λ bs. announced bs ≡ false) quiet
      → announced before ≡ false
      → a.type ≡ BundleType.broker_announce
      → k.type ≡ BundleType.broker_ack
      → same a.source k.source ≡ true
      → (broker : Endpoint) × (same a.source broker ≡ true)
        × (find_broker
              (map brought quiet
                ++ brought (before ++ a ∷ after)
                  ∷ (map brought waits ++ brought (early ++ k ∷ late) ∷ answers))
              n
            ≡ (ok true, (joined n broker, request n a.source ∷ [])))
  unfolding find_broker
  find_broker-ends quiet waits before after early late a k answers hn ha ht q r at ack from_there =
      let acking = early ++ k ∷ late in
      let asks = hear-announced a after at (handle_announce a hn ha ht at) in
      let acks = acked-append a.source [] early late k (rw ack refl) from_there in
      let rest = brought (before ++ a ∷ after) ∷ (map brought waits ++ brought acking ∷ answers) in
      let (broker, alike, ends) =
        search-announced a before after waits acking answers n.broker no_broker r asks acks in
      (broker, alike, search-idle quiet rest n.broker no_broker q ∙ ends)
