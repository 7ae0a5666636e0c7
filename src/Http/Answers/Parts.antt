-- ===== src/Http/Answers/Parts.antt =====
-- The parts of a handler: each has answered when it returns early, and sent nothing when it goes on.
use orbit_api_gateway.Base.{inl, inr, Option, Option-cases}
use orbit_api_gateway.Json.{Json}
use orbit_api_gateway.Domain.Failure.{Failure, Result, ok, err}
use orbit_api_gateway.World.{World}
use orbit_api_gateway.Http.Message.{
  Request, Response, Conn, Flow, halt, go, Part, call, answer, finish,
}
use orbit_api_gateway.Http.Response.{write_json, error_body, decode_body, decode_json_body}
use orbit_api_gateway.Http.Answers.{Answered, Renders, IsBlank, blank, write_json-Renders}

abbrev pub Steps : {A : Type 0} → Flow A → Type 0
Steps (halt c) = Answered c.response
Steps (go a c) = IsBlank c

-- The last part: it has answered.
abbrev pub Ends : {A : Type 0} → Flow A → Type 0
Ends (halt c) = Answered c.response
Ends (go a c) = ⊥

pub bound-Steps :
    {A B : Type 0} (x : Flow A) (k : A → Part B)
    → Steps x
    → ((a : A) (c : Conn) → IsBlank c → Steps (k a c))
    → Steps (elim x [ halt c ↦ halt c | go a c ↦ k a c ])
bound-Steps (halt c) k here rest = here
bound-Steps (go a c) k here rest = rest a c here

pub bound-Ends :
    {A B : Type 0} (x : Flow A) (k : A → Part B)
    → Steps x
    → ((a : A) (c : Conn) → IsBlank c → Ends (k a c))
    → Ends (elim x [ halt c ↦ halt c | go a c ↦ k a c ])
bound-Ends (halt c) k here rest = here
bound-Ends (go a c) k here rest = rest a c here

pub finish-Answered : {A : Type 0} (x : Flow A) → Ends x → Answered (finish x).response
finish-Answered (halt c) here = here
finish-Answered (go a c) here = absurd here

pub answer-Ends :
    (A : Type 0) (f : Response → Response) (c : Conn)
    → Renders f
    → IsBlank c
    → Ends (answer {A = A} f c)
answer-Ends A f _ renders (blank world headers) = renders headers

pub answer-Steps :
    (A : Type 0) (f : Response → Response) (c : Conn)
    → Renders f
    → IsBlank c
    → Steps (answer {A = A} f c)
answer-Steps A f _ renders (blank world headers) = renders headers

pub decoded-Steps :
    {A : Type 0} (decode : Json → Option A) (r : Request) (c : Conn)
    → IsBlank c
    → Steps (decode_json_body decode r c)
unfolding decode_json_body
decoded-Steps {A} decode r c here = elim (Option-cases (decode_body decode r.body)) [
  | inl e ↦
      rw (e, decode_json_body)
        (answer-Steps A (write_json 400 (error_body "invalid json")) c (write_json-Renders _ _)
          here)
  | inr (a, e) ↦ rw (e, decode_json_body) here
]

pub called-Steps :
    {A : Type 0} (on_error : Failure → Response → Response) (c : Conn) (x : Result A × World)
    → ((f : Failure) → Renders (on_error f))
    → IsBlank c
    → Steps (call on_error (λ _. x) c)
called-Steps on_error _ (ok a, w) renders (blank world headers) = blank w headers
called-Steps on_error _ (err f, w) renders (blank world headers) = renders f headers
