-- ===== src/Device/Credentials/Wifi.antt =====
-- What is read of the WiFi data that was registered.
use io_tware.Common.{
  ℕ, zero, suc, ◌<◌, ◌≡◌, refl, some, [], ◌∷◌, ◌++◌, Bytes, ok, zeros, drop, length, arith,
  ne→==_false,
}
use io_tware.Oal.Fifo.{success}
use io_tware.Device.Strings.Laws.{IsText, text_in}
use io_tware.Device.Credentials.{
  WifiApInfo, has_text, put_text, iw_register_wifi_info, iw_get_wifi_info,
}
use io_tware.Device.Credentials.Padded.{padded, over, length-over, copy_text-out, put_text-padded}

-- WiFi data whose arrays hold the texts `t` and `p`.
abbrev pub wifi_texts : Bytes → Bytes → WifiApInfo
wifi_texts t p = record { ssid = padded 32 t; pw = padded 32 p }

-- A struct that was zeroed.
abbrev pub no_wifi : WifiApInfo
no_wifi = record { ssid = zeros 32; pw = zeros 32 }

register-wifi_texts :
    (t p s q r r' : Bytes)
    → IsText s
    → IsText q
    → length s < 32
    → length q < 32
    → length t < 32
    → length p < 32
    → iw_register_wifi_info (wifi_texts t p) (some (text_in s r)) (some (text_in q r'))
      ≡ ok (wifi_texts (over s t) (over q p))
unfolding iw_register_wifi_info
register-wifi_texts t p s q r r' hs hq ls lq lt lp =
    rw
      (
        put_text-padded 32 s r t hs (omega arith) (omega arith),
        put_text-padded 32 q r' p hq (omega arith) (omega arith),
      )
      refl

put_text-out :
    (t : Bytes)
    → IsText t
    → length t < 32
    → put_text (some (padded 32 t)) (zeros 32) ≡ ok (padded 32 t)
unfolding put_text has_text
put_text-out [] h l = refl
put_text-out (b ∷ t) h l = rw (ne→==_false b 0 h.0) (copy_text-out 32 (b ∷ t) h l)

get-wifi_texts :
    (b : ℕ) (t p : Bytes)
    → IsText (b ∷ t)
    → IsText p
    → length (b ∷ t) < 32
    → length p < 32
    → iw_get_wifi_info (wifi_texts (b ∷ t) p) no_wifi ≡ ok (success, wifi_texts (b ∷ t) p)
unfolding iw_get_wifi_info has_text
get-wifi_texts b t p ht hp lt lp =
    rw (ne→==_false b 0 ht.0, copy_text-out 32 (b ∷ t) ht lt, put_text-out p hp lp) refl

IsText-append : (s t : Bytes) → IsText s → IsText t → IsText (s ++ t)
IsText-append [] t h k = k
IsText-append (b ∷ s) t h k = (h.0, IsText-append s t h.1 k)

IsText-drop : (n : ℕ) (t : Bytes) → IsText t → IsText (drop n t)
IsText-drop zero t h = h
IsText-drop (suc n) [] h = h
IsText-drop (suc n) (b ∷ t) h = IsText-drop n t h.1

over-IsText : (s t : Bytes) → IsText s → IsText t → IsText (over s t)
over-IsText s t h k = IsText-append s (drop (length s) t) h (IsText-drop (length s) t k)

-- Where the arrays hold the texts `t` and `p`, registering a name that is not empty and a password,
-- all of fewer than 32 bytes, succeeds, and what is then read into a zeroed struct are they with
-- what `t` and `p` have behind their length: where the old text was longer, its end stays.
pub register-get_wifi_info :
    (t p : Bytes) (b : ℕ) (s q r r' : Bytes)
    → IsText t
    → IsText p
    → IsText (b ∷ s)
    → IsText q
    → length t < 32
    → length p < 32
    → length (b ∷ s) < 32
    → length q < 32
    → (info : WifiApInfo) × (iw_register_wifi_info
          (wifi_texts t p)
          (some (text_in (b ∷ s) r))
          (some (text_in q r'))
        ≡ ok info)
      × (iw_get_wifi_info info no_wifi ≡ ok (success, wifi_texts (over (b ∷ s) t) (over q p)))
register-get_wifi_info t p b s q r r' ht hp hs hq lt lp ls lq =
    let name = over (b ∷ s) t in
    (
      wifi_texts name (over q p),
      register-wifi_texts t p (b ∷ s) q r r' hs hq ls lq lt lp,
      get-wifi_texts b (s ++ drop (length (b ∷ s)) t) (over q p) (over-IsText (b ∷ s) t hs ht)
          (over-IsText q p hq hp) (omega (arith, length-over (b ∷ s) t))
          (omega (arith, length-over q p)),
    )
