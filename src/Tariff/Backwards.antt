-- ===== src/Tariff/Backwards.antt =====
-- What a negative block of minutes does to the loop over the blocks of a zone in `CalFeeRAM2GR`.
