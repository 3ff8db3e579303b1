-- ===== src/Node/Agent.antt =====
-- What a node asks of its DTN agent (dtn/node.py): registration and the sending of bundles. The agent,
-- behind `_send_message`, is a parameter with a state of its own.
use ma_sinafadavi_gpt.Base.{◌≡◌, List, [], ◌∷◌, ◌++◌, Result, ok, err, Error}
use ma_sinafadavi_gpt.Base.Exceptions.{file_not_found}
use ma_sinafadavi_gpt.Bundles.{BundleData}
use ma_sinafadavi_gpt.Messages.{Message, register_type, create_type, new_register, new_create}
use ma_sinafadavi_gpt.Node.{Node}

-- What `_send_message` returns or raises, and what the agent is like afterwards.
abbrev pub Agent : Type 0 → Type 0
Agent S = Message → S → Result Message × S

-- The agent's messages so far, where it is asked for one after the other.
pub record Logs (S : Type 0) (agent : Agent S) : Type 0 where
  pub log : S → List Message
  pub log-agent : (m : Message) (s : S) → log (agent m s).1 ≡ log s ++ m ∷ []

-- How `_register` ends: it returns, it exits the program, or it raises.
pub data Registration : Type 0 where
  returned exited : Registration
  raised : Error → Registration

module _ {S : Type 0} (agent : Agent S) where
  -- A message that may fail to be made, and the agent's answer to it.
  unfoldable pub ask_agent : Result Message → S → Result Message × S
  ask_agent (err e) s = (err e, s)
  ask_agent (ok m) s = agent m s

  registration : Result Message → Registration
  registration (ok answer) = returned
  registration (err file_not_found) = exited
  registration (err e) = raised e

  registered : Result Message → S → Registration × S
  unfolding registration
  registered (err e) s = (raised e, s)
  registered (ok m) s = let r = agent m s in (registration r.0, r.1)

  -- `_register`
  unfoldable pub register : Node → S → Registration × S
  unfolding registered
  register n s = registered (new_register register_type n.node_id) s

  -- `_send_bundle`
  unfoldable pub send_bundle : BundleData → S → Result Message × S
  unfolding ask_agent
  send_bundle b s = ask_agent (new_create create_type b) s

  replied :
      Result Message × S
      → List Message
      → (List Message → S → Result (List Message) × S)
      → Result (List Message) × S
  replied (err e, s) replies rest = (err e, s)
  replied (ok answer, s) replies rest = rest (replies ++ answer ∷ []) s

  -- `_send_messages`
  unfoldable pub send_messages : List Message → List Message → S → Result (List Message) × S
  unfolding replied
  send_messages [] replies s = (ok replies, s)
  send_messages (m ∷ ms) replies s = replied (agent m s) replies (send_messages ms)

  -- `_send_bundles`
  unfoldable pub send_bundles : List BundleData → List Message → S → Result (List Message) × S
  unfolding replied
  send_bundles [] replies s = (ok replies, s)
  send_bundles (b ∷ bs) replies s = replied (send_bundle b s) replies (send_bundles bs)

  -- `_send_and_check`: an exception ends the sending, and is logged.
  unfoldable pub send_and_check : List BundleData → S → S
  send_and_check bs s = (send_bundles bs [] s).1
