-- ===== src/Portfolio.antt =====
-- application/ibkr_portfolio.py: the portfolio as the broker shows it.
pub mod Stocks
pub mod Reconciled
