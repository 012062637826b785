-- ===== src/Device/Credentials/Lora.antt =====
-- What is read of the LoRa data that was registered.
use io_tware.Common.{
  ℕ, ◌≤◌, ◌≡◌, refl, Bool, true, false, not, ◌&&◌, some, Bytes, ok, ◌==◌, if◌then◌else◌, zeros,
  length, arith,
}
use io_tware.Oal.Fifo.{success, fail}
use io_tware.Device.Strings.Laws.{IsText, text_in}
use io_tware.Device.Credentials.{
  LoraJoinInfo, join_abp, join_otaa, iw_register_lora_abp_info, iw_register_lora_otaa_info,
  iw_get_lora_info,
}
use io_tware.Device.Credentials.Padded.{padded, copy_text-out, put_key-padded, wrong_lengths-padded}

-- A struct that was zeroed, and arrays of the right sizes.
abbrev pub no_join : LoraJoinInfo
no_join = record {
  join_mode = 0;
  dev_addr = zeros 9;
  dev_eui = zeros 17;
  nwks_key = zeros 33;
  app_eui = zeros 17;
  apps_key = zeros 33;
  app_key = zeros 33;
}

pub record HasRoom (join : LoraJoinInfo) : Type 0 where
  pub dev_addr_room : length join.dev_addr ≡ 9
  pub dev_eui_room : length join.dev_eui ≡ 17
  pub nwks_key_room : length join.nwks_key ≡ 33
  pub app_eui_room : length join.app_eui ≡ 17
  pub apps_key_room : length join.apps_key ≡ 33
  pub app_key_room : length join.app_key ≡ 33

abbrev pub abp_texts : LoraJoinInfo → Bytes → Bytes → Bytes → LoraJoinInfo
abp_texts join a n p = record join {
  join_mode = join_abp;
  dev_addr = padded 9 a;
  nwks_key = padded 33 n;
  apps_key = padded 33 p;
}

abbrev pub otaa_texts : LoraJoinInfo → Bytes → Bytes → Bytes → LoraJoinInfo
otaa_texts join d e k = record join {
  join_mode = join_otaa;
  dev_eui = padded 17 d;
  app_eui = padded 17 e;
  app_key = padded 33 k;
}

-- Three texts of at most these lengths.
pub record Fit (a : Bytes) (i : ℕ) (b : Bytes) (j : ℕ) (c : Bytes) (k : ℕ) : Type 0 where
  pub first : IsText a × (length a ≤ i)
  pub second : IsText b × (length b ≤ j)
  pub third : IsText c × (length c ≤ k)

register-abp_texts :
    (join : LoraJoinInfo) (a n p r r' r'' : Bytes)
    → HasRoom join
    → Fit a 8 n 32 p 32
    → iw_register_lora_abp_info join
        (some (text_in a r))
        (some (text_in n r'))
        (some (text_in p r''))
      ≡ ok (success, abp_texts join a n p)
unfolding iw_register_lora_abp_info
register-abp_texts join a n p r r' r'' h f =
    rw
      (
        put_key-padded 8 a r join.dev_addr f.first.0 f.first.1 h.dev_addr_room,
        put_key-padded 32 n r' join.nwks_key f.second.0 f.second.1 h.nwks_key_room,
        put_key-padded 32 p r'' join.apps_key f.third.0 f.third.1 h.apps_key_room,
      )
      refl

if_not :
    {A : Type 0} (b : Bool) (x y : A) → (if not b then ok y else ok x) ≡ ok (if b then x else y)
if_not true x y = refl
if_not false x y = refl

get-abp_texts :
    (join : LoraJoinInfo) (a n p : Bytes)
    → Fit a 8 n 32 p 32
    → iw_get_lora_info (abp_texts join a n p) (some no_join)
      ≡ ok (
          if (length a == 8) && (length n == 32) && (length p == 32)
          then (success, some (abp_texts no_join a n p))
          else (fail, some (record no_join { join_mode = join_abp })))
unfolding iw_get_lora_info
get-abp_texts join a n p f =
    rw
      (
        wrong_lengths-padded a n p 8 32 32 f.first.0 f.second.0 f.third.0 f.first.1 f.second.1
            f.third.1,
        copy_text-out 9 a f.first.0 (omega (arith, f.first.1)),
        copy_text-out 33 n f.second.0 (omega (arith, f.second.1)),
        copy_text-out 33 p f.third.0 (omega (arith, f.third.1)),
      )
      (if_not ((length a == 8) && (length n == 32) && (length p == 32)) _ _)

register-otaa_texts :
    (join : LoraJoinInfo) (d e k r r' r'' : Bytes)
    → HasRoom join
    → Fit d 16 e 16 k 32
    → iw_register_lora_otaa_info join
        (some (text_in d r))
        (some (text_in e r'))
        (some (text_in k r''))
      ≡ ok (success, otaa_texts join d e k)
unfolding iw_register_lora_otaa_info
register-otaa_texts join d e k r r' r'' h f =
    rw
      (
        put_key-padded 16 d r join.dev_eui f.first.0 f.first.1 h.dev_eui_room,
        put_key-padded 16 e r' join.app_eui f.second.0 f.second.1 h.app_eui_room,
        put_key-padded 32 k r'' join.app_key f.third.0 f.third.1 h.app_key_room,
      )
      refl

get-otaa_texts :
    (join : LoraJoinInfo) (d e k : Bytes)
    → Fit d 16 e 16 k 32
    → iw_get_lora_info (otaa_texts join d e k) (some no_join)
      ≡ ok (
          if (length d == 16) && (length e == 16) && (length k == 32)
          then (success, some (otaa_texts no_join d e k))
          else (fail, some (record no_join { join_mode = join_otaa })))
unfolding iw_get_lora_info
get-otaa_texts join d e k f =
    rw
      (
        wrong_lengths-padded d e k 16 16 32 f.first.0 f.second.0 f.third.0 f.first.1 f.second.1
            f.third.1,
        copy_text-out 17 d f.first.0 (omega (arith, f.first.1)),
        copy_text-out 17 e f.second.0 (omega (arith, f.second.1)),
        copy_text-out 33 k f.third.0 (omega (arith, f.third.1)),
      )
      (if_not ((length d == 16) && (length e == 16) && (length k == 32)) _ _)

-- Registering three LoRa texts that are no longer than the mode takes, for either mode, succeeds;
-- reading the data into a zeroed struct then gives exactly these texts where each has the mode's
-- length, and otherwise fails and sets nothing but the mode. What was registered for the other mode
-- before does not matter.
pub register-get_lora_info :
    (join : LoraJoinInfo) (a n p d e k r r' r'' : Bytes)
    → HasRoom join
    → Fit a 8 n 32 p 32
    → Fit d 16 e 16 k 32
    → ((info : LoraJoinInfo) × (iw_register_lora_abp_info join
            (some (text_in a r))
            (some (text_in n r'))
            (some (text_in p r''))
          ≡ ok (success, info))
        × (iw_get_lora_info info (some no_join)
            ≡ ok (
                if (length a == 8) && (length n == 32) && (length p == 32)
                then (success, some (abp_texts no_join a n p))
                else (fail, some (record no_join { join_mode = join_abp })))))
      × ((info : LoraJoinInfo) × (iw_register_lora_otaa_info join
              (some (text_in d r))
              (some (text_in e r'))
              (some (text_in k r''))
            ≡ ok (success, info))
          × (iw_get_lora_info info (some no_join)
              ≡ ok (
                  if (length d == 16) && (length e == 16) && (length k == 32)
                  then (success, some (otaa_texts no_join d e k))
                  else (fail, some (record no_join { join_mode = join_otaa })))))
register-get_lora_info join a n p d e k r r' r'' h abp otaa = (
  (
    abp_texts join a n p,
    register-abp_texts join a n p r r' r'' h abp,
    get-abp_texts join a n p abp,
  ),
  (
    otaa_texts join d e k,
    register-otaa_texts join d e k r r' r'' h otaa,
    get-otaa_texts join d e k otaa,
  ),
)
