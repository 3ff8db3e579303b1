-- ===== src/Rest/Client/Stopping.antt =====
-- When the client of the REST variant stops (rest/nodes/client.py).
use ma_sinafadavi_gpt.Base.{
  ℕ, ◌≡◌, ◌∙◌, sym, ◌⊎◌, inl, inr, refl, Bool, Bool-cases, true, false, ◌&&◌, ◌||◌, List, [], ◌∷◌,
  Text, is_empty, arith,
}
use ma_sinafadavi_gpt.Rest.Client.{Client, awaits, pop_result, receive_result, finish, receive_all}

-- The client has stopped exactly when it awaits no result, and it will when the last one comes.
abbrev pub IsWaiting : Client → Type 0
IsWaiting s =
    (s.stopped ≡ is_empty s.pending_results)
    × ((is_empty s.pending_results ≡ true) ⊎ (s.all_queued ≡ true))

finish-IsWaiting : (s : Client) → s.stopped ≡ false → IsWaiting (finish s)
unfolding finish
finish-IsWaiting s h = elim (Bool-cases (is_empty s.pending_results)) [
  | inl nothing ↦ rw nothing (sym nothing, inl nothing)
  | inr something ↦ rw something (h ∙ sym something, inr refl)
]

awaits-is_empty :
    (id : ℕ) (pending : List (ℕ × Text)) → awaits id pending ≡ true → is_empty pending ≡ false
unfolding awaits
awaits-is_empty id [] h = absurd (cc)
awaits-is_empty id (p ∷ pending) h = refl

queued :
    (all_queued nothing : Bool)
    → (nothing ≡ true) ⊎ (all_queued ≡ true)
    → nothing ≡ false
    → all_queued ≡ true
queued all_queued nothing (inl h) k = absurd (cc)
queued all_queued nothing (inr h) k = h

popped-IsWaiting :
    (all_queued nothing stopped : Bool)
    → all_queued ≡ true
    → stopped ≡ false
    → ((all_queued && nothing || stopped) ≡ nothing) × ((nothing ≡ true) ⊎ (all_queued ≡ true))
popped-IsWaiting all_queued nothing stopped h k = (ground arith, inr h)

receive_result-IsWaiting :
    (written : Bool) (id : ℕ) (s : Client) → IsWaiting s → IsWaiting (receive_result written id s).1
unfolding receive_result
receive_result-IsWaiting written id s (stops, more) =
    elim (Bool-cases (awaits id s.pending_results)) [
      | inr unknown ↦ rw unknown (stops, more)
      | inl known ↦ elim (Bool-cases written) [
        | inr lost ↦ rw (known, lost) (stops, more)
        | inl kept ↦
            rw (known, kept)
              (popped-IsWaiting s.all_queued (is_empty (pop_result id s.pending_results)) s.stopped
                (queued s.all_queued (is_empty s.pending_results) more
                  (awaits-is_empty id s.pending_results known))
                (stops ∙ awaits-is_empty id s.pending_results known))
      ]
    ]

receive_all-IsWaiting :
    (results : List (Bool × ℕ)) (s : Client) → IsWaiting s → IsWaiting (receive_all results s)
unfolding receive_all
receive_all-IsWaiting [] s h = h
receive_all-IsWaiting ((written, id) ∷ results) s h =
    receive_all-IsWaiting results (receive_result written id s).1
      (receive_result-IsWaiting written id s h)

-- Once the commands of a plan are through, a client that has not stopped before has stopped exactly when
-- it awaits no result any more, whatever results arrive, awaited or not, and whether or not they can be
-- written.
pub stops_with_last_result :
    (results : List (Bool × ℕ)) (s : Client)
    → s.stopped ≡ false
    → let t = receive_all results (finish s) in t.stopped ≡ is_empty t.pending_results
stops_with_last_result results s h =
    (receive_all-IsWaiting results (finish s) (finish-IsWaiting s h)).0
