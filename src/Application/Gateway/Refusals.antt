-- ===== src/Application/Gateway/Refusals.antt =====
-- What `Gateway::infer` answers when it tries no route (crates/slg-application/src/lib.rs).
use smart_llm_gateway.Prelude.{String, ◌≡◌, arith, true, false, ◌∷◌, ok, err, if◌then◌else◌}
use smart_llm_gateway.Domain.Message.{InferenceRequest}
use smart_llm_gateway.Ports.{authenticated, candidates_of, Log}
use smart_llm_gateway.Application.Monad.{unauthorized, configuration, upstream_unavailable}
use smart_llm_gateway.Application.Gateway.{Gateway, route_unavailable, infer_authenticated, infer}

module _ {F V B : Type 0} (g : Gateway F V B) (raw_key : String) (request : InferenceRequest F)
    (l : Log) where
  -- A key that is not valid is refused, and nothing but the key was looked at.
  pub infer_unauthorized :
      g.config.authenticate l raw_key ≡ ok false
      → infer g raw_key request l ≡ (err unauthorized, authenticated raw_key ∷ l)
  unfolding infer infer_authenticated
  infer_unauthorized h = rw h

  -- If the key is valid and the candidates cannot be computed, no credential is resolved and no provider called: a missing
  -- route is reported as unavailable, any other error as one of the configuration.
  pub infer_without_candidates :
      (e : String)
      → g.config.authenticate l raw_key ≡ ok true
      → g.config.candidates (authenticated raw_key ∷ l) request.model ≡ err e
      → infer g raw_key request l ≡ (
        (if route_unavailable e then err upstream_unavailable else err (configuration e)),
        candidates_of request.model ∷ authenticated raw_key ∷ l,
      )
  unfolding infer infer_authenticated
  infer_without_candidates e h k = rw (h, k) (ground arith)
