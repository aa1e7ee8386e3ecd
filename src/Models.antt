-- ===== src/Models.antt =====
-- The rows of the database (license_manager/apps/subscriptions/models.py) with the constants that
-- they use (constants.py). A uuid, an email and an instant are only compared, so each is a number;
-- an instant counts microseconds of UTC.
mod Licenses
mod Plans
mod Agreements
mod Renewals
mod Audit
unfoldable pub use Licenses.*
unfoldable pub use Plans.*
pub use Agreements.*
pub use Renewals.*
pub use Audit.*
