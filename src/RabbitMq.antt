-- ===== src/RabbitMq.antt =====
-- RabbitMQ: the API types and webhooks of apis/rabbitmq/v1beta1, and the upgrade rules of
-- internal/rabbitmq and of its controller.
pub mod Versions
pub mod Clusters
pub mod Order
pub mod Defaults
pub mod Users
pub mod UserRules
mod Tests
pub mod Upgrade
pub mod Wiping
pub mod Completing
pub mod Vhosts
pub mod Policies
