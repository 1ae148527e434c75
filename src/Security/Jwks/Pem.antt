-- ===== src/Security/Jwks/Pem.antt =====
-- toPEM_PubKey of key_conversion.cpp. OpenSSL and the standard streams are the parameter
-- `OpenSsl`: a call that may give a null pointer or an error code gives `none` or `false`. The
-- unique pointers only free what the calls have made, and are not modelled.
use sapper_bricks.Prelude.{String, Bool, Option, none, some, if◌then◌else◌}
use sapper_bricks.Effect.{Result, returns, throws, runtime_error}
use sapper_bricks.Effect.Fail.{◌>>=◌}
use sapper_bricks.Security.Jwks.{Rs256Key}

pub record OpenSsl : Type 1 where
  pub Bignum : Type 0
  pub ParamBuilder : Type 0
  pub Params : Type 0
  pub Context : Type 0
  pub PublicKey : Type 0
  pub Stream : Type 0
  -- jwt::base64_uri_decode
  pub base64_uri_decode : String → String
  pub bin2bn : String → Option Bignum
  pub param_builder_new : Option ParamBuilder
  pub push_n : ParamBuilder → Bignum → Option ParamBuilder
  pub push_e : ParamBuilder → Bignum → Option ParamBuilder
  pub to_param : ParamBuilder → Option Params
  pub context_new_rsa : Option Context
  pub fromdata_init : Context → Bool
  pub fromdata : Context → Params → Option PublicKey
  pub open_memstream : Option Stream
  -- the text in the buffer, once the key is written and the stream flushed
  pub write_pubkey : Stream → PublicKey → Option String

-- if(pointer == nullptr) { throw std::runtime_error(message); }
abbrev not_null : {A : Type 0} → Option A → String → Result A
not_null none message = throws (runtime_error message)
not_null (some a) message = returns a

module _ (O : OpenSsl) where
  open O use {
    ParamBuilder, PublicKey, Params, Context, Bignum, base64_uri_decode, bin2bn, param_builder_new,
    push_n, push_e, to_param, context_new_rsa, fromdata_init, fromdata, open_memstream,
    write_pubkey,
  }

  -- The builder with both numbers pushed; all three calls share one message.
  unfoldable pub build_params : Bignum → Bignum → Result ParamBuilder
  build_params n e = do
    builder ← not_null param_builder_new "OSSL: unable to init the param builder"
    with_n ← not_null (push_n builder n) "OSSL: unable to init the param builder"
    not_null (push_e with_n e) "OSSL: unable to init the param builder"

  unfoldable pub init_key : Context → Params → Result PublicKey
  init_key ctx params =
      if fromdata_init ctx
      then not_null (fromdata ctx params) "OSSL: unable to initialize key"
      else throws (runtime_error "OSSL: unable to initialize key")

  unfoldable pub to_pem_pub_key : Rs256Key → Result String
  unfolding build_params init_key
  to_pem_pub_key key = do
    let dec_modulus = base64_uri_decode key.modulus_base64
    let dec_exponent = base64_uri_decode key.exponent_base64
    n ← not_null (bin2bn dec_modulus) "OSSL: unable to convert the modulus to a bignum"
    e ← not_null (bin2bn dec_exponent) "OSSL: unable to convert the exponent to a bignum"
    builder ← build_params n e
    params ← not_null (to_param builder) "OSSL: unable to create params"
    ctx ← not_null context_new_rsa "OSSL: unable to create context"
    pub_key ← init_key ctx params
    stream ← not_null open_memstream "unable to open memory stream"
    not_null (write_pubkey stream pub_key) "OSSL: unable write key"
