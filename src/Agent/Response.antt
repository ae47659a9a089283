-- ===== src/Agent/Response.antt =====
-- `streamAssistantResponse` of packages/agent/src/agent-loop.ts.
use co_mono.Base.{
  ◌≡◌, refl, ap, Bool, true, false, Option, none, some, List, [], ◌∷◌, ◌++◌, is_some,
}
use co_mono.Message.{AssistantMessage, AgentMessage, assistant}
use co_mono.Agent.Event.{
  AgentEvent, message_start, message_update, message_end, StreamEvent, start, delta, done, error,
  ended,
}

-- `messages[messages.length - 1] = m`
unfoldable pub set_last : List AgentMessage → AgentMessage → List AgentMessage
set_last [] m = []
set_last (x ∷ []) m = m ∷ []
set_last (x ∷ y ∷ xs) m = x ∷ set_last (y ∷ xs) m

abbrev emit :
    List AgentEvent → List AgentMessage × List AgentEvent → List AgentMessage × List AgentEvent
emit es (messages, later) = (messages, es ++ later)

-- The end of a response: the final message takes the place of the partial one, or is added.
unfoldable pub finish :
    List AgentMessage
    → Option AssistantMessage
    → AssistantMessage
    → List AgentMessage × List AgentEvent
finish messages none final = (
  messages ++ assistant final ∷ [],
  message_start (assistant final) ∷ message_end (assistant final) ∷ [],
)
finish messages (some _) final =
    (set_last messages (assistant final), message_end (assistant final) ∷ [])

-- The loop over the stream's events, with the partial message (`addedPartial` is whether there is
-- one); it returns the messages of the context and the events that it pushes.
unfoldable pub stream_response :
    AssistantMessage
    → List AgentMessage
    → Option AssistantMessage
    → List StreamEvent
    → List AgentMessage × List AgentEvent
stream_response final messages partial [] = (messages, [])
stream_response final messages partial (start p ∷ es) =
    emit (message_start (assistant p) ∷ [])
      (stream_response final (messages ++ assistant p ∷ []) (some p) es)
stream_response final messages none (delta p ∷ es) = stream_response final messages none es
stream_response final messages (some _) (delta p ∷ es) =
    emit (message_update (assistant p) ∷ [])
      (stream_response final (set_last messages (assistant p)) (some p) es)
stream_response final messages partial (done ∷ es) = finish messages partial final
stream_response final messages partial (error ∷ es) = finish messages partial final

-- What a provider's stream keeps to: it ends by `done` or `error`, and starts at most once.
abbrev pub IsProtocol : Bool → List StreamEvent → Type 0
IsProtocol started [] = ⊥
IsProtocol started (start p ∷ es) = (started ≡ false) × IsProtocol true es
IsProtocol started (delta p ∷ es) = IsProtocol started es
IsProtocol started (done ∷ es) = Unit
IsProtocol started (error ∷ es) = Unit

set_last-append :
    (xs : List AgentMessage) (x m : AgentMessage) → set_last (xs ++ x ∷ []) m ≡ xs ++ m ∷ []
unfolding set_last
set_last-append [] x m = refl
set_last-append (y ∷ []) x m = refl
set_last-append (y ∷ z ∷ xs) x m = ap (y ∷◌) (set_last-append (z ∷ xs) x m)

-- The messages with the partial one behind them.
abbrev with_partial : List AgentMessage → Option AssistantMessage → List AgentMessage
with_partial messages none = messages
with_partial messages (some p) = messages ++ assistant p ∷ []

abbrev Settles : AssistantMessage → List AgentMessage → List AgentMessage × List AgentEvent → Type 0
Settles final messages out =
    (out.0 ≡ messages ++ assistant final ∷ []) × (ended out.1 ≡ assistant final ∷ [])

finish-Settles :
    (final : AssistantMessage) (messages : List AgentMessage) (partial : Option AssistantMessage)
    → Settles final messages (finish (with_partial messages partial) partial final)
unfolding finish
finish-Settles final messages none = (refl, refl)
finish-Settles final messages (some p) =
    (set_last-append messages (assistant p) (assistant final), refl)

stream_response-Settles :
    (final : AssistantMessage) (messages : List AgentMessage) (partial : Option AssistantMessage)
    (es : List StreamEvent)
    → IsProtocol (is_some partial) es
    → Settles final messages (stream_response final (with_partial messages partial) partial es)
unfolding stream_response
stream_response-Settles final messages partial [] h = absurd h
stream_response-Settles final messages none (start p ∷ es) h =
    stream_response-Settles final messages (some p) es h.1
stream_response-Settles final messages (some q) (start p ∷ es) h = absurd (cc (h.0))
stream_response-Settles final messages none (delta p ∷ es) h =
    stream_response-Settles final messages none es h
stream_response-Settles final messages (some q) (delta p ∷ es) h =
    rw (set_last-append messages (assistant q) (assistant p))
      (stream_response-Settles final messages (some p) es h)
stream_response-Settles final messages partial (done ∷ es) h = finish-Settles final messages partial
stream_response-Settles final messages partial (error ∷ es) h =
    finish-Settles final messages partial

-- A stream that keeps to the protocol adds exactly the final message to the context, whatever partial
-- messages stood in its place, and ends exactly that message.
pub stream_response-final :
    (final : AssistantMessage) (messages : List AgentMessage) (es : List StreamEvent)
    → IsProtocol false es
    → ((stream_response final messages none es).0 ≡ messages ++ assistant final ∷ [])
      × (ended (stream_response final messages none es).1 ≡ assistant final ∷ [])
stream_response-final final messages es h = stream_response-Settles final messages none es h
