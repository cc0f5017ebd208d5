-- ===== src/Sponsor/Service/Debited.antt =====
-- Whom a response of backend/src/api/sponsor/sponsor.service.ts lets the chain charge.
use paymaster.Common.{◌+◌, ◌≡◌}
use paymaster.Common.Results.{ok}
use paymaster.UserOperation.{Hex}
use paymaster.Signature.Codec.{decode_paymaster_and_data}
use paymaster.Signature.Engine.{layout_fields}
use paymaster.Signature.Engine.Binding.{IsUsableWindow}
use paymaster.Sponsor.Request.{SponsorRequest}
use paymaster.Sponsor.Ports.{SponsorServiceDeps, CallerIdentity, SponsorResponse, Quote}
use paymaster.Sponsor.Service.{quote_of, contract_of}

-- What the decoder reads of the bytes of a response: the paymaster's contract of the chain with, on a
-- multi-tenant one, the caller's tenant; the limits that were priced; and the window.
pub record Debits {W : Type 0} (d : SponsorServiceDeps W) (r : SponsorRequest)
    (caller : CallerIdentity) (response : SponsorResponse) : Type 0 where
  pub quote : Quote W
  pub signature : Hex
  pub quoted : quote_of d r caller ≡ ok quote
  pub window : IsUsableWindow (d.now + d.options.validity_seconds) 0
  pub decoded :
      decode_paymaster_and_data d.viem response.paymaster_and_data quote.chain.paymaster_kind
      ≡ ok (record {
        fields = layout_fields (contract_of d r caller quote.chain.paymaster_kind) (record {
          paymaster = quote.chain.paymaster;
          paymaster_verification_gas_limit = d.options.paymaster_verification_gas_limit;
          post_op_gas_limit = d.options.post_op_gas_limit;
          valid_until = d.now + d.options.validity_seconds;
          valid_after = 0;
        });
        signature = signature;
      })
