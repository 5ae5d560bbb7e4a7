-- ===== src/Services/HttpSender.antt =====
-- services/http_sender.go: what one worker does with one request. What net/http answers is an
-- argument.
use localsend_switchboard.Prelude.{
  ℕ, ◌≡◌, ◌≢◌, ◌↔◌, ◌⊎◌, inl, inr, refl, Bool, true, Option, none, some, arith, if◌then◌else◌,
  Bytes, Bytes-discrete, codes, ite, take,
}
use localsend_switchboard.Configs.{http_response_body_max_size}
use localsend_switchboard.Entities.{HttpJsonRequest, HttpResponse}

-- What net/http does: NewRequest fails, Do fails, or there is a response with a status and a body,
-- `none` where reading the body fails.
pub data HttpEvent : Type 0 where
  request_invalid do_failed : HttpEvent
  responds : ℕ → Option Bytes → HttpEvent

-- What goes into the response channel: nothing, nil, or a response.
pub data Reply : Type 0 where
  silent nil_reply : Reply
  reply : HttpResponse → Reply

-- The part behind the construction of the request.
unfoldable pub answer : Bool → HttpEvent → Reply
answer wanted request_invalid = silent
answer wanted do_failed = if wanted then nil_reply else silent
answer wanted (responds status none) = silent
answer wanted (responds status (some body)) =
    if wanted
    then reply (record { status_code = status; body = take http_response_body_max_size body })
    else silent

-- One round of setUpHTTPSender.
unfoldable pub handle_request : HttpJsonRequest → HttpEvent → Reply
unfolding answer
handle_request req event =
    ite (Bytes-discrete req.method (codes "POST")) (answer req.resp_chan event)
      (ite (Bytes-discrete req.method (codes "GET")) (answer req.resp_chan event) silent)

-- The worker stays silent towards a caller that waits for a response exactly when the method is neither
-- POST nor GET, the request cannot be built, or the body of the response cannot be read.
pub handle_request_silent :
    (req : HttpJsonRequest) (event : HttpEvent)
    → req.resp_chan ≡ true
    → (handle_request req event ≡ silent) ↔ (
        ((req.method ≢ codes "POST") × (req.method ≢ codes "GET"))
        ⊎ (event ≡ request_invalid)
        ⊎ ((status : ℕ) × (event ≡ responds status none)))
unfolding handle_request
handle_request_silent req event wanted = (λ e. forth event e, λ h. back event h)
  where
    unsupported :
        {C : Type 0}
        → (req.method ≡ codes "POST" → ⊥)
        → (req.method ≢ codes "POST" → req.method ≡ codes "GET" → ⊥)
        → ((req.method ≢ codes "POST") × (req.method ≢ codes "GET")) ⊎ C
    unsupported p g = inl (p, g p)

    forth :
        (event : HttpEvent)
        → handle_request req event ≡ silent
        → ((req.method ≢ codes "POST") × (req.method ≢ codes "GET"))
          ⊎ (event ≡ request_invalid)
          ⊎ ((status : ℕ) × (event ≡ responds status none))
    forth request_invalid e = inr (inl refl)
    forth do_failed e = unsupported (λ a. absurd (ground arith)) (λ a b. absurd (ground arith))
    forth (responds status none) e = inr (inr (status, refl))
    forth (responds status (some body)) e =
        unsupported (λ a. absurd (ground arith)) (λ a b. absurd (ground arith))

    back :
        (event : HttpEvent)
        → ((req.method ≢ codes "POST") × (req.method ≢ codes "GET"))
          ⊎ (event ≡ request_invalid)
          ⊎ ((status : ℕ) × (event ≡ responds status none))
        → handle_request req event ≡ silent
    back event (inl (a, b)) = ground arith
    back event (inr (inl e)) = ground arith
    back event (inr (inr (status, e))) = ground arith
