-- ===== src/Payment.antt =====
-- app/payment.py: the chain registry. X Layer is its one entry.
use tilla.Base.{Bool, Option, List, [], ◌∷◌}
use tilla.Base.Text.{Text, codes, text_eq}
use tilla.Base.Rows.{find, select}
use tilla.Chain.{ChainConfig}

abbrev pub payment_network : Text
payment_network = codes "eip155:196"

abbrev pub canonical_chain : ChainConfig
canonical_chain = record {
  chain_id = 196;
  caip2 = payment_network;
  asset = codes "0x779ded0c9e1022225f8e0630b35a9b54be713736";
}

abbrev pub chains : List ChainConfig
chains = canonical_chain ∷ []

-- `[cfg for cfg in CHAINS.values() if chain_enabled(cfg)]`; the flags and the probe are given.
abbrev pub enabled_chains : (ChainConfig → Bool) → List ChainConfig
enabled_chains chain_enabled = select chain_enabled chains

-- `CHAINS[network]`; `none` is the `KeyError`.
unfoldable pub chain_for : Text → Option ChainConfig
chain_for network = find (λ c. text_eq c.caip2 network) chains
