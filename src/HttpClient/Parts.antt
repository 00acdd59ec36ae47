-- ===== src/HttpClient/Parts.antt =====
-- porting/impl/http_client.cc: what `Open` makes of a URL, and what can be read after it.
use xiaozhi_pc.Base.{
  ℕ, suc, ◌+◌, ◌-◌, ◌≡◌, refl, ap, ◌∙◌, true, false, Option, none, some, [], ◌∷◌, ◌++◌, arith,
  length, drop, take-append_length, drop-append_length,
}
use xiaozhi_pc.Base.Text.{Bytes, Lacks, codes}
use xiaozhi_pc.HttpClient.{begins, find, parse_url, Response, Request, HttpClient, open_url}

-- A pattern is found behind a text that lacks its first byte.
pub find-append :
    (p : ℕ) (ps s t : Bytes)
    → Lacks p s
    → begins (p ∷ ps) t ≡ true
    → find (p ∷ ps) (s ++ t) ≡ some (length s)
unfolding find begins
find-append p ps [] [] h b = cc
find-append p ps [] (c ∷ t) h b = ground arith
find-append p ps (c ∷ s) t h b = ground (arith, find-append p ps s t h.1)

find-none : (p : ℕ) (ps s : Bytes) → Lacks p s → find (p ∷ ps) s ≡ none
unfolding find begins
find-none p ps [] h = refl
find-none p ps (c ∷ s) h = ground (arith, find-none p ps s h.1)

zero_plus : (k : ℕ) → 0 + k ≡ k
zero_plus k = omega arith

drop-append_add : (s t : Bytes) (k : ℕ) → drop (length s + k) (s ++ t) ≡ drop k t
drop-append_add [] t k = ap (λ (n : ℕ). drop n t) (zero_plus k)
drop-append_add (c ∷ s) t k = rounds {j = suc (length s + k)} (omega arith) ∙ drop-append_add s t k
  where
    rounds : {i j : ℕ} → i ≡ j → drop i (c ∷ (s ++ t)) ≡ drop j (c ∷ (s ++ t))
    rounds e = ap (λ n. drop n (c ∷ (s ++ t))) e

-- `protocol://rest`
abbrev pub with_protocol : Bytes → Bytes → Bytes
with_protocol protocol rest = protocol ++ (codes "://" ++ rest)

drop_protocol :
    (s rest : Bytes) (k : ℕ) → drop (length s + 3 + k) (with_protocol s rest) ≡ drop k rest
drop_protocol s rest k =
    rounds (omega arith) ∙ drop-append_add s (codes "://" ++ rest) (suc (suc (suc k)))
  where
    rounds : {i j : ℕ} → i ≡ j → drop i (with_protocol s rest) ≡ drop j (with_protocol s rest)
    rounds e = ap (λ n. drop n (with_protocol s rest)) e

drop_protocol_end : (s rest : Bytes) → drop (length s + 3) (with_protocol s rest) ≡ rest
drop_protocol_end s rest = drop-append_add s (codes "://" ++ rest) 3

find_protocol :
    (s rest : Bytes) → Lacks b':' s → find (codes "://") (with_protocol s rest) ≡ some (length s)
unfolding begins
find_protocol s rest h = find-append b':' (codes "//") s (codes "://" ++ rest) h refl

-- `Open` takes `protocol://host/path` apart at these places, when there is no colon in the protocol
-- and no slash in the host.
pub parse_url_path :
    (protocol host path : Bytes)
    → Lacks b':' protocol
    → Lacks b'/' host
    → parse_url (with_protocol protocol (host ++ (b'/' ∷ path)))
      ≡ some (record { protocol = protocol; host = host; path = b'/' ∷ path })
unfolding parse_url begins
parse_url_path protocol host path hp hh =
    rw (find_protocol protocol (host ++ (b'/' ∷ path)) hp, parse_url)
      (rw
        (
          drop_protocol_end protocol (host ++ (b'/' ∷ path)),
          find-append b'/' [] host (b'/' ∷ path) hh refl,
        )
        (rw (
          take-append_length protocol (codes "://" ++ (host ++ (b'/' ∷ path))),
          drop_protocol protocol (host ++ (b'/' ∷ path)) (length host),
          drop_protocol_end protocol (host ++ (b'/' ∷ path)),
          same,
          take-append_length host (b'/' ∷ path),
          drop-append_length host (b'/' ∷ path),
        )))
  where
    same : length protocol + 3 + length host - (length protocol + 3) ≡ length host
    same = omega arith

-- A URL that ends behind the host stands for the path `/`, when there is no colon in the protocol
-- and no slash in the host.
parse_url_host :
    (protocol host : Bytes)
    → Lacks b':' protocol
    → Lacks b'/' host
    → parse_url (with_protocol protocol host)
      ≡ some (record { protocol = protocol; host = host; path = codes "/" })
unfolding parse_url
parse_url_host protocol host hp hh =
    rw (find_protocol protocol host hp, parse_url)
      (rw (drop_protocol_end protocol host, find-none b'/' [] host hh)
        (rw (take-append_length protocol (codes "://" ++ host), drop_protocol_end protocol host)))

-- A URL with no `://` is refused, and the client keeps the result that it had.
open_url_refused :
    (library : Request → Option Response) (method url content : Bytes) (h : HttpClient)
    → find (codes "://") url ≡ none
    → open_url library method url content h ≡ (false, h)
unfolding open_url
open_url_refused library method url content h e = rw (no_url, open_url)
  where
    no_url : parse_url url ≡ none
    no_url = unfold parse_url in rw (e, parse_url)
