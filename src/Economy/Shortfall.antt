-- ===== src/Economy/Shortfall.antt =====
-- ahp/economy: a hold of `estimate_hold` against the settlement that `settle_payment` makes of it.
