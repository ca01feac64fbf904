-- ===== src/Controller/Session/Requests.antt =====
-- The answers of a session and what a run of messages keeps: `handle_message` and `handshake` of
-- src/app/hid_passthrough/ctm/controllers/controller_common.c.
use moonlight_tv.Base.{
  ℕ, ◌%◌, List, [], ◌∷◌, Option, none, some, true, not, ◌&&◌, ◌||◌, leb, ◌==◌, if◌then◌else◌,
  length, ◌≡◌, refl, sym, ap, ◌∙◌, arith, if_both, if_split,
}
use moonlight_tv.Base.Int.{ℤ}
use moonlight_tv.Ctmb.{
  Header, flag_ok, msg_host_config, msg_output_report, msg_feature_get, msg_feature_set,
}
use moonlight_tv.Controller.Pace.{should_pace}
use moonlight_tv.Controller.Output.{Written, hid_write_report}
use moonlight_tv.Controller.Session.{
  Node, Ports, Session, Act, rumble, raw_write, device_report, read_feature, write_feature, reply,
  feature_fd_for, output_fd_for, host_config_size, Answers, usable, answer_get, device_acts,
  parse_rumble_motors, rumble_acts, write_fd_raw, handle_output, handle_message,
}

-- The requests that a list of acts answers.
abbrev pub replied : List Act → List ℕ
replied [] = []
replied (reply flags request_id payload ∷ acts) = request_id ∷ replied acts
replied (rumble strong weak ∷ acts) = replied acts
replied (raw_write node bs ∷ acts) = replied acts
replied (device_report bs ∷ acts) = replied acts
replied (read_feature node bs ∷ acts) = replied acts
replied (write_feature node bs ∷ acts) = replied acts

-- Output reports are not answered.
record IsSilent (out : Session × List Act) : Type 0 where
  silent : replied out.1 ≡ []

rumble_acts-silent : (o : Option (ℕ × ℕ)) → replied (rumble_acts o) ≡ []
rumble_acts-silent none = refl
rumble_acts-silent (some (strong, weak)) = refl

device_acts-silent : (o : Option (List ℕ)) → replied (device_acts o) ≡ []
device_acts-silent none = refl
device_acts-silent (some bs) = refl

write_fd_raw-IsSilent :
    (a : Answers) (node : Node) (s : Session) (payload : List ℕ)
    → IsSilent (write_fd_raw a node s payload)
unfolding write_fd_raw
write_fd_raw-IsSilent a node s payload =
    if_both IsSilent (not (usable payload)) (record { silent = refl }) (record { silent = refl })

handle_output-IsSilent :
    (scale : ℕ → ℤ → ℤ) (p : Ports) (a : Answers) (s : Session) (h : Header) (payload : List ℕ)
    → IsSilent (handle_output scale p a s h payload)
unfolding handle_output
handle_output-IsSilent scale p a s h payload =
    let ep : ℕ = h.h_request_id % 256 in
    let w : Written = hid_write_report scale p.hook a.kernel s.output payload in
    if_both IsSilent (p.evdev_gamepad && (ep == 0 || ep == p.xpad_out_ep || ep == p.primary_out_ep))
      (record { silent = rumble_acts-silent (parse_rumble_motors payload) })
      (if_both IsSilent p.composite
        (write_fd_raw-IsSilent a (output_fd_for p h.h_request_id) s payload)
        (if_both IsSilent (should_pace s.host_cfg h payload) (record { silent = refl })
          (record { silent = device_acts-silent w.to_device })))

-- The answer that a message is owed.
record Answered (ids : List ℕ) (out : Session × List Act) : Type 0 where
  answered : replied out.1 ≡ ids

answer_get-once : (id : ℕ) (o : Option (List ℕ)) → replied (answer_get id true o) ≡ id ∷ []
answer_get-once id none = refl
answer_get-once id (some report) = refl

-- What a message is owed: its number, if it asks for a feature report or sets one.
abbrev pub owed : Header → List ℕ
owed h =
    if h.h_type == msg_feature_get || h.h_type == msg_feature_set then h.h_request_id ∷ [] else []

get-Answered :
    (a : Answers) (s : Session) (node : Node) (id : ℕ) (payload : List ℕ)
    → a.send_ok ≡ true
    → replied (
        if usable payload
        then read_feature node payload ∷ answer_get id a.send_ok (a.feature_of node payload)
        else reply 0 id [] ∷ [])
      ≡ id ∷ []
get-Answered a s node id payload ok =
    if_both (λ acts. replied acts ≡ id ∷ []) (usable payload)
      (ap (λ b. replied (answer_get id b (a.feature_of node payload))) ok
        ∙ answer_get-once id (a.feature_of node payload))
      refl

set-Answered :
    (a : Answers) (node : Node) (id : ℕ) (payload : List ℕ)
    → replied (
        if usable payload
        then write_feature node payload
          ∷ reply (if a.feature_set node payload then flag_ok else 0) id []
          ∷ []
        else reply 0 id [] ∷ [])
      ≡ id ∷ []
set-Answered a node id payload = if_both (λ acts. replied acts ≡ id ∷ []) (usable payload) refl refl

handle_message-Answered :
    (scale : ℕ → ℤ → ℤ) (p : Ports) (a : Answers) (s : Session) (h : Header) (payload : List ℕ)
    → a.send_ok ≡ true
    → Answered (owed h) (handle_message scale p a s h payload)
unfolding handle_message
handle_message-Answered scale p a s h payload ok =
    let P : Session × List Act → Type 0 = Answered (owed h) in
    let id : ℕ = h.h_request_id in
    let node : Node = feature_fd_for p id in
    if_split P (h.h_type == msg_output_report)
      (λ t. record {
        answered = (handle_output-IsSilent scale p a s h payload).silent ∙ sym (ground (arith, t));
      })
      (λ _.
        if_split P (h.h_type == msg_feature_get)
          (λ t. record { answered = get-Answered a s node id payload ok ∙ sym (ground (arith, t)) })
          (λ t.
            if_split P (h.h_type == msg_feature_set)
              (λ u. record { answered = set-Answered a node id payload ∙ sym (ground (arith, u)) })
              (λ u.
                if_both P (h.h_type == msg_host_config && leb host_config_size (length payload))
                  (record { answered = sym (ground (arith, t, u)) })
                  (record { answered = sym (ground (arith, t, u)) }))))

-- Where the transport takes the answers, a message that asks for a feature report or sets one is
-- answered once, under its own number, whatever the device does and whatever its payload, and no
-- other message is answered.
pub handle_message-replied :
    (scale : ℕ → ℤ → ℤ) (p : Ports) (a : Answers) (s : Session) (h : Header) (payload : List ℕ)
    → a.send_ok ≡ true
    → replied (handle_message scale p a s h payload).1 ≡ owed h
handle_message-replied scale p a s h payload ok =
    (handle_message-Answered scale p a s h payload ok).answered
