-- ===== src/Exchange/Peers.antt =====
-- Which clients reach the code of the user.
use libpapago.Prelude.{
  ℕ, ◌≡◌, ◌⊎◌, refl, Bool, true, false, not, ◌&&◌, ◌||◌, Option, some, arith, Bool-cases, inl, inr,
}
use libpapago.Prelude.Text.{CString, codes}
use libpapago.Request.{Request}
use libpapago.Response.{res_send, res_json, res_header, set_status, content_type, Response}
use libpapago.Alloc.{Alloc}
use libpapago.Server.{State, Server}
use libpapago.Dispatch.{json, answer, respond}
use libpapago.Exchange.{Peer, has_status, peer_message, read_cert, check_peer, handle}

-- The chain of the certificate was verified and the certificate could be read.
pub record IsAccepted (p : Peer) : Type 0 where
  pub verified : p.verified ≡ true
  pub no_status : has_status p ≡ false
  pub has_cert : p.has_cert ≡ true
  pub init_done : p.init_done ≡ true
  pub imported : p.imported ≡ true

-- The request as an accepted client's is seen.
abbrev pub known : Peer → Request → Request
known p req = record req { has_client_cert = true; client_cert_cn = p.common_name }

res_send_status :
    (res : Response) (body : Option CString) (a : Alloc)
    → (res_send res body a).1.status ≡ res.status
unfolding res_send
res_send_status res body a = elim (Bool-cases res.is_stream_file) [
  | inl e ↦ rw e refl
  | inr e ↦ rw e refl
]

module _ {W : Type 0} where
  -- What a refusal with this status leaves of a state.
  abbrev pub IsRefusal : ℕ → State W → State W → Type 0
  IsRefusal status s out = (out.world ≡ s.world) × (out.res.status ≡ status)

  answer-IsRefusal :
      (status : ℕ) (text : CString) (s : State W) → IsRefusal status s (answer status text s)
  unfolding answer json res_json res_header
  answer-IsRefusal status text s =
      let (res, a) =
        res_header (set_status s.res status) (some content_type) (some (codes "application/json"))
          s.alloc in
      (refl, res_send_status res (some text) a)

  -- The two outcomes of the check.
  abbrev pub Checked : Peer → Request → State W → Bool × Request × State W → Type 0
  Checked p req s out =
      (IsAccepted p × (out ≡ (true, known p req, s)))
      ⊎ ((¬ IsAccepted p) × (out.0 ≡ false) × (IsRefusal 500 s out.2 ⊎ IsRefusal 403 s out.2))

  check_peer_invalid :
      (p : Peer) (req : Request) (s : State W)
      → (not p.verified || has_status p) ≡ true
      → Checked p req s (check_peer p req s)
  unfolding check_peer
  check_peer_invalid p req s e = rw e (
      inr (
        λ h. let a = h.verified in let b = h.no_status in ground arith,
        refl,
        inl (answer-IsRefusal 500 (peer_message p) s),
      ))

  check_peer_unloaded :
      (p : Peer) (req : Request) (s : State W)
      → (not p.verified || has_status p) ≡ false
      → (p.has_cert && not p.init_done) ≡ true
      → Checked p req s (check_peer p req s)
  unfolding check_peer
  check_peer_unloaded p req s e f =
      rw (e, f)
        (inr (
          λ h. let a = h.init_done in ground arith,
          refl,
          inl (answer-IsRefusal 500 (codes "{\"error\":\"failed loading client certificate\"}") s),
        ))

  check_peer_missing :
      (p : Peer) (req : Request) (s : State W)
      → (not p.verified || has_status p) ≡ false
      → (p.has_cert && not p.init_done) ≡ false
      → (p.has_cert && p.imported) ≡ false
      → Checked p req s (check_peer p req s)
  unfolding check_peer read_cert
  check_peer_missing p req s e f g =
      rw (e, f, g)
        (inr (
          λ h. let a = h.has_cert in let b = h.imported in ground arith,
          refl,
          inr (answer-IsRefusal 403 (codes "{\"error\":\"client certificate required\"}") s),
        ))

  check_peer_accepted :
      (p : Peer) (req : Request) (s : State W)
      → (not p.verified || has_status p) ≡ false
      → (p.has_cert && not p.init_done) ≡ false
      → (p.has_cert && p.imported) ≡ true
      → Checked p req s (check_peer p req s)
  unfolding check_peer read_cert
  check_peer_accepted p req s e f g =
      rw (e, f, g)
        (inl (
          record {
            verified = ground arith;
            no_status = ground arith;
            has_cert = ground arith;
            init_done = ground arith;
            imported = ground arith;
          },
          refl,
        ))

  check_peer-Checked :
      (p : Peer) (req : Request) (s : State W) → Checked p req s (check_peer p req s)
  check_peer-Checked p req s = elim (Bool-cases (not p.verified || has_status p)) [
    | inl e ↦ check_peer_invalid p req s e
    | inr e ↦ elim (Bool-cases (p.has_cert && not p.init_done)) [
      | inl f ↦ check_peer_unloaded p req s e f
      | inr f ↦ elim (Bool-cases (p.has_cert && p.imported)) [
        | inl g ↦ check_peer_accepted p req s e f g
        | inr g ↦ check_peer_missing p req s e f g
      ]
    ]
  ]

  -- A server that requires client certificates: a client whose certificate is accepted gets what the
  -- middleware and the routes make of its request, with the certificate's name; for any other none of
  -- them runs: the user's data is as it was, and the status is 500 or 403.
  pub handle_lem :
      (server : Server W) (p : Peer) (fields : Request → Request) (req : Request) (s : State W)
      → server.config.enable_ssl ≡ true
      → server.config.require_client_cert ≡ true
      → (IsAccepted p × (handle server p fields req s ≡ respond server (fields (known p req)) s))
        ⊎ ((¬ IsAccepted p)
            × (IsRefusal 500 s (handle server p fields req s).1
                ⊎ IsRefusal 403 s (handle server p fields req s).1))
  unfolding handle
  handle_lem server p fields req s ssl cert = elim (check_peer-Checked p req s) [
    | inl (ok, e) ↦ inl (ok, rw (ssl, cert, e) refl)
    | inr (rejected, stop, refused) ↦ inr (rejected, rw (ssl, cert, stop) refused)
  ]
